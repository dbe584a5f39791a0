-- ===== src/FeedProof/Collapse/Order.antt =====
-- Sorting keeps the networks, and what the last pass leaves out is covered by what it yields.
use homecluster_infra.Base.{
  ℕ, zero, suc, ◌+◌, ◌*◌, ◌/◌, ◌%◌, ◌^◌, ◌≤◌, ◌<◌, ◌≡◌, refl, ap, ◌∙◌, Bool, true, false, ◌||◌,
  some, List, [], ◌∷◌, nat_eq, arith, inl, inr, Bool-cases, some-eq, leb,
}
use native.Mathlib.Nat.{pow-suc, add-mul, div-add-mod', mod-lt, div-eq_of_lt-le}
use homecluster_infra.FeedProof.Net.{Network, covers, network_address, broadcast_address}
use homecluster_infra.FeedProof.Collapse.{
  network_le, insert_network, enough_fuel, halves, collapse_addresses, sort_networks, drop_covered,
  without_covered,
}
use homecluster_infra.FeedProof.Collapse.Laws.{
  covered, or_left_comm, merge_loop_total, covered-merge_loop,
}

power_pos : (b : ℕ) → 0 < 2 ^ b
power_pos zero = omega arith
power_pos (suc b) = rw (pow-suc 2 b) (omega (arith, power_pos b))

covers_range :
    (n : Network) (a : ℕ) → covers n a ≡ true → (network_address n ≤ a) × (a ≤ broadcast_address n)
covers_range n a h =
    let e : a / 2 ^ n.bits ≡ n.index = ground arith in
    let d = div-add-mod' a (2 ^ n.bits) in
    let l = mod-lt a (power_pos n.bits) in
    let d2 : n.index * 2 ^ n.bits + a % 2 ^ n.bits ≡ a = rw e at d in
    (omega (arith, d2), omega (arith, d2, l))

range_covers :
    (n : Network) (a : ℕ) → network_address n ≤ a → a ≤ broadcast_address n → covers n a ≡ true
range_covers n a lo hi =
    let p = power_pos n.bits in
    let e : a / 2 ^ n.bits ≡ n.index =
      div-eq_of_lt-le (2 ^ n.bits) lo (rw (add-mul n.index 1 (2 ^ n.bits)) (omega (arith, p))) in
    rw e (ground arith)

covered-insert_network :
    (m : Network) (ns : List Network) (a : ℕ)
    → covered (insert_network m ns) a ≡ (covers m a || covered ns a)
unfolding insert_network
covered-insert_network m [] a = refl
covered-insert_network m (n ∷ ns) a = elim (Bool-cases (network_le m n)) [
  | inl e ↦ rw e refl
  | inr e ↦ rw e (
      ap (λ r. covers n a || r) (covered-insert_network m ns a)
      ∙ or_left_comm (covers n a) (covers m a) (covered ns a))
]

covered-sort_networks : (ns : List Network) (a : ℕ) → covered (sort_networks ns) a ≡ covered ns a
unfolding sort_networks
covered-sort_networks [] a = refl
covered-sort_networks (n ∷ ns) a =
    covered-insert_network n (sort_networks ns) a
    ∙ ap (λ r. covers n a || r) (covered-sort_networks ns a)

-- The networks start at `lo` or after it, each at or after the one before.
abbrev Ascending : ℕ → List Network → Type 0
Ascending lo [] = Unit
Ascending lo (n ∷ ns) = (lo ≤ network_address n) × Ascending (network_address n) ns

Ascending-weaken : {lo hi : ℕ} (ns : List Network) → lo ≤ hi → Ascending hi ns → Ascending lo ns
Ascending-weaken [] le up = tt
Ascending-weaken (n ∷ ns) le (first, up) = (omega arith, up)

insert_network-Ascending :
    (lo : ℕ) (m : Network) (ns : List Network)
    → lo ≤ network_address m
    → Ascending lo ns
    → Ascending lo (insert_network m ns)
unfolding insert_network
insert_network-Ascending lo m [] le up = (le, tt)
insert_network-Ascending lo m (n ∷ ns) le (first, up) = elim (Bool-cases (network_le m n)) [
  | inl e ↦ rw e (le, (ground arith, up))
  | inr e ↦ rw e (first, insert_network-Ascending (network_address n) m ns (ground arith) up)
]

sort_networks-Ascending : (ns : List Network) → Ascending 0 (sort_networks ns)
unfolding sort_networks
sort_networks-Ascending [] = tt
sort_networks-Ascending (n ∷ ns) =
    insert_network-Ascending 0 n (sort_networks ns) (omega arith) (sort_networks-Ascending ns)

-- A network that starts and ends within another one adds no address to it.
covers_inside :
    (last n : Network) (a : ℕ)
    → network_address last ≤ network_address n
    → leb (broadcast_address n) (broadcast_address last) ≡ true
    → covers n a ≡ true
    → covers last a ≡ true
covers_inside last n a lo hi h =
    let r = covers_range n a h in
    let le : broadcast_address n ≤ broadcast_address last = ground arith in
    range_covers last a (omega (arith, r.0)) (omega (arith, r.1, le))

or_inside : (l n r : Bool) → (n ≡ true → l ≡ true) → (l || r) ≡ (l || (n || r))
or_inside l n r h = elim (Bool-cases n) [ inl e ↦ rw (e, h e) refl | inr e ↦ rw e refl ]

covered-drop_covered :
    (last : Network) (ns : List Network) (a : ℕ)
    → Ascending (network_address last) ns
    → (covers last a || covered (drop_covered last ns) a) ≡ (covers last a || covered ns a)
unfolding drop_covered
covered-drop_covered last [] a up = refl
covered-drop_covered last (n ∷ ns) a (le, up) =
    elim (Bool-cases (leb (broadcast_address n) (broadcast_address last))) [
      | inl e ↦ rw e (
          covered-drop_covered last ns a (Ascending-weaken ns le up)
          ∙ or_inside (covers last a) (covers n a) (covered ns a) (covers_inside last n a le e))
      | inr e ↦ rw e (ap (λ r. covers last a || r) (covered-drop_covered n ns a up))
    ]

covered-without_covered :
    (ns : List Network) (a : ℕ) → Ascending 0 ns → covered (without_covered ns) a ≡ covered ns a
unfolding without_covered
covered-without_covered [] a up = refl
covered-without_covered (n ∷ ns) a (le, up) = covered-drop_covered n ns a up

or_none : (x : Bool) → (x || false) ≡ x
or_none x = ground arith

-- The fuel of the loop is enough, so collapsing gives a list.
pub collapse_addresses_total :
    (networks : List Network) → (out : List Network) × (collapse_addresses networks ≡ some out)
unfolding collapse_addresses
collapse_addresses_total networks =
    let (out, e) = merge_loop_total (enough_fuel networks) networks [] (omega arith) in
    rw e (_, refl)

-- The collapsed networks have the addresses of the given ones, no more and no fewer.
pub covered-collapse_addresses :
    (networks out : List Network) (a : ℕ)
    → collapse_addresses networks ≡ some out
    → covered out a ≡ covered networks a
unfolding collapse_addresses
covered-collapse_addresses networks out a h =
    let (left, e) = merge_loop_total (enough_fuel networks) networks [] (omega arith) in
    let this : without_covered (sort_networks (halves left)) ≡ out = some-eq (rw e at h) in
    rw (← this) (
      covered-without_covered (sort_networks (halves left)) a
        (sort_networks-Ascending (halves left))
      ∙ covered-sort_networks (halves left) a
      ∙ covered-merge_loop (enough_fuel networks) networks [] a tt e
      ∙ or_none (covered networks a))
