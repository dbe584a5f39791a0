-- ===== src/FeedProof/Collapse/Laws.antt =====
-- The collapsed networks have the addresses of the given ones, and the loop ends.
use homecluster_infra.Base.{
  ℕ, zero, suc, ◌+◌, ◌*◌, ◌/◌, ◌^◌, ◌<◌, ◌≡◌, refl, sym, ap, ◌∙◌, Bool, true, false, ◌||◌, some,
  List, [], ◌∷◌, nat_eq, length, any, arith, inl, inr, Bool-cases, Option-cases, some-eq,
}
use native.Mathlib.Nat.{pow-suc, div-div-eq-div-mul}
use homecluster_infra.FeedProof.Net.{Network, covers, same_network, supernet}
use homecluster_infra.FeedProof.Collapse.{Subnets, find_half, remove_half, merge_loop, halves}

length-remove_half :
    (key : Network) (subnets : Subnets) {v : Network}
    → find_half key subnets ≡ some v
    → length (remove_half key subnets) < length subnets
unfolding find_half remove_half
length-remove_half key [] h = cc
length-remove_half key ((k, v) ∷ rest) h = elim (Bool-cases (same_network k key)) [
  | inl e ↦ rw e (omega arith)
  | inr e ↦ rw e (omega (arith, length-remove_half key rest (rw e at h)))
]

-- The loop ends: the pending networks count twice, the halves once.
pub merge_loop_total :
    (fuel : ℕ) (to_merge : List Network) (subnets : Subnets)
    → 2 * length to_merge + length subnets < fuel
    → (out : Subnets) × (merge_loop fuel to_merge subnets ≡ some out)
unfolding merge_loop
merge_loop_total zero to_merge subnets h = absurd (omega arith)
merge_loop_total (suc fuel) [] subnets h = (subnets, refl)
merge_loop_total (suc fuel) (net ∷ to_merge) subnets h =
    elim (Option-cases (find_half (supernet net) subnets)) [
      | inl e ↦
          rw (e, merge_loop)
            (merge_loop_total fuel to_merge ((supernet net, net) ∷ subnets) (omega arith))
      | inr (existing, e) ↦ elim (Bool-cases (same_network existing net)) [
        | inl same ↦ rw (e, merge_loop, same) (merge_loop_total fuel to_merge subnets (omega arith))
        | inr other ↦
            rw (e, merge_loop, other)
              (merge_loop_total fuel (supernet net ∷ to_merge) (remove_half (supernet net) subnets)
                (omega (arith, length-remove_half (supernet net) subnets e)))
      ]
    ]

-- The networks that cover an address.
abbrev pub covered : List Network → ℕ → Bool
covered networks a = any (λ n. covers n a) networks

-- Every half stands under its own supernet.
abbrev AreHalves : Subnets → Type 0
AreHalves [] = Unit
AreHalves ((k, v) ∷ rest) = (k ≡ supernet v) × AreHalves rest

half-div : (a b : ℕ) → a / 2 ^ suc b ≡ a / 2 ^ b / 2
half-div a b = rw (pow-suc 2 b) (sym (div-div-eq-div-mul a (2 ^ b) 2))

same_network-eq : (m n : Network) → same_network m n ≡ true → m ≡ n
same_network-eq m n h = ground arith

-- Two halves of one network cover its addresses.
covers-supernet :
    (m n : Network) (a : ℕ)
    → supernet m ≡ supernet n
    → same_network m n ≡ false
    → covers (supernet n) a ≡ (covers m a || covers n a)
unfolding supernet
covers-supernet m n a h apart = ground (arith, half-div a m.bits, half-div a n.bits)

pub or_left_comm : (x y z : Bool) → (x || (y || z)) ≡ (y || (x || z))
or_left_comm x y z = ground arith

or_new : (n t r : Bool) → (t || (n || r)) ≡ ((n || t) || r)
or_new n t r = ground arith

or_known : (n t c r : Bool) → (n || r) ≡ c → (t || c) ≡ ((n || t) || c)
or_known n t c r h = ground arith

or_merged : (p e n t c r : Bool) → p ≡ (e || n) → (e || r) ≡ c → ((p || t) || r) ≡ ((n || t) || c)
or_merged p e n t c r h k = ground arith

covered-remove_half :
    (key v : Network) (subnets : Subnets) (a : ℕ)
    → find_half key subnets ≡ some v
    → (covers v a || covered (halves (remove_half key subnets)) a) ≡ covered (halves subnets) a
unfolding find_half remove_half halves
covered-remove_half key v [] a h = cc
covered-remove_half key v ((k, w) ∷ rest) a h = elim (Bool-cases (same_network k key)) [
  | inl e ↦ let this : w ≡ v = some-eq (rw e at h) in rw (e, this)
  | inr e ↦ rw e (
      or_left_comm (covers v a) (covers w a) _
      ∙ ap (λ r. covers w a || r) (covered-remove_half key v rest a (rw e at h)))
]

find_half-supernet :
    (key : Network) (subnets : Subnets) {v : Network}
    → AreHalves subnets
    → find_half key subnets ≡ some v
    → supernet v ≡ key
unfolding find_half
find_half-supernet key [] ok h = cc
find_half-supernet key ((k, w) ∷ rest) (e, good) h = elim (Bool-cases (same_network k key)) [
  | inl same ↦
      let this : w ≡ _ = some-eq (rw same at h) in rw (← this) (sym e ∙ same_network-eq k key same)
  | inr other ↦ find_half-supernet key rest good (rw other at h)
]

remove_half-AreHalves :
    (key : Network) (subnets : Subnets) → AreHalves subnets → AreHalves (remove_half key subnets)
unfolding remove_half
remove_half-AreHalves key [] good = tt
remove_half-AreHalves key ((k, w) ∷ rest) (e, good) = elim (Bool-cases (same_network k key)) [
  | inl same ↦ rw same good
  | inr other ↦ rw other (e, remove_half-AreHalves key rest good)
]

-- What the loop leaves covers what was pending and what was kept.
pub covered-merge_loop :
    (fuel : ℕ) (to_merge : List Network) (subnets : Subnets) {out : Subnets} (a : ℕ)
    → AreHalves subnets
    → merge_loop fuel to_merge subnets ≡ some out
    → covered (halves out) a ≡ (covered to_merge a || covered (halves subnets) a)
unfolding merge_loop halves
covered-merge_loop zero to_merge subnets a good h = cc
covered-merge_loop (suc fuel) [] subnets a good h = ap (λ s. covered (halves s) a) (sym (some-eq h))
covered-merge_loop (suc fuel) (net ∷ to_merge) subnets {out} a good h =
    elim (Option-cases (find_half (supernet net) subnets)) [
      | inl e ↦
          covered-merge_loop fuel to_merge ((supernet net, net) ∷ subnets) a (refl, good)
            (rw (e, merge_loop) at h)
          ∙ or_new (covers net a) (covered to_merge a) _
      | inr (existing, e) ↦ elim (Bool-cases (same_network existing net)) [
        | inl same ↦
            covered-merge_loop fuel to_merge subnets a good (rw (e, merge_loop, same) at h)
            ∙ or_known (covers net a) (covered to_merge a) _ _ (
                rw (same_network-eq existing net same) at
                  (covered-remove_half _ existing subnets a e))
        | inr other ↦
            covered-merge_loop fuel (supernet net ∷ to_merge) (remove_half (supernet net) subnets) a
              (remove_half-AreHalves (supernet net) subnets good) (rw (e, merge_loop, other) at h)
            ∙ or_merged _ (covers existing a) (covers net a) (covered to_merge a) _ _
                (covers-supernet existing net a (find_half-supernet _ subnets good e) other)
                (covered-remove_half _ existing subnets a e)
      ]
    ]
