-- ===== src/Base/Bytes.antt =====
-- Bytes: their texts, decimal numbers, and slices as Python makes them.
use Prim.Native.Nat.{ℕ, zero, suc, ◌+◌, ◌-◌, ◌*◌, ◌/◌, ◌%◌, ◌^◌, ◌≤◌, ◌<◌}
use Prim.Native.Char.{code}
use Prim.Native.String.{String}
use mathlib.Core.Path.{◌≡◌, refl, ap}
use mathlib.Core.Logic.{◌↔◌, inl, inr}
use mathlib.Core.Bool.{Bool, true, false, ◌&&◌}
use mathlib.Core.List.{List, [], ◌∷◌, ◌++◌}
use native.Mathlib.Nat.{pow-suc}
use native.Mathlib.Omega.{arith}
use homecluster_infra.Base.Tests.{Eq, ◌==◌, nat_eq, leb, ltb, Bool-cases, if◌then◌else◌}
use homecluster_infra.Base.Lists.{length, all, length-append}

-- `text.encode()` of ASCII text.
unfoldable pub encode : String → List ℕ
encode String.[] = []
encode (String.◌∷◌ c s) = code c ∷ encode s

abbrev bytes_beq : List ℕ → List ℕ → Bool
bytes_beq [] [] = true
bytes_beq [] (y ∷ ys) = false
bytes_beq (x ∷ xs) [] = false
bytes_beq (x ∷ xs) (y ∷ ys) = x == y && bytes_beq xs ys

pub bytes_beq_iff : (xs ys : List ℕ) → (bytes_beq xs ys ≡ true) ↔ (xs ≡ ys)
bytes_beq_iff [] [] = ground arith
bytes_beq_iff [] (y ∷ ys) = ground arith
bytes_beq_iff (x ∷ xs) [] = ground arith
bytes_beq_iff (x ∷ xs) (y ∷ ys) = ground (arith, bytes_beq_iff xs ys)

instance abbrev pub bytes_eq : Eq (List ℕ)
bytes_eq = record { test = bytes_beq; test_iff = bytes_beq_iff }

module _ {ℓ} {A : Type ℓ} where
  -- `xs[:n]` and `xs[n:]`
  unfoldable pub take : ℕ → List A → List A
  take zero xs = []
  take (suc n) [] = []
  take (suc n) (x ∷ xs) = x ∷ take n xs

  unfoldable pub drop : ℕ → List A → List A
  drop zero xs = xs
  drop (suc n) [] = []
  drop (suc n) (x ∷ xs) = drop n xs

  pub take-append : (xs ys : List A) → take (length xs) (xs ++ ys) ≡ xs
  unfolding take
  take-append [] ys = refl
  take-append (x ∷ xs) ys = ap (λ r. x ∷ r) (take-append xs ys)

  pub drop-append : (xs ys : List A) → drop (length xs) (xs ++ ys) ≡ ys
  unfolding drop
  drop-append [] ys = refl
  drop-append (x ∷ xs) ys = drop-append xs ys

unfoldable pub is_digit : ℕ → Bool
is_digit c = leb b'0' c && leb c b'9'

-- `int(text)` of ASCII digits, after those that stand for `n`.
unfoldable pub number_from : ℕ → List ℕ → ℕ
number_from n [] = n
number_from n (c ∷ s) = number_from (n * 10 + (c - b'0')) s

-- The decimal digits of a number that has at most `k` of them, with no leading zero.
unfoldable pub digits : ℕ → ℕ → List ℕ
digits zero n = []
digits (suc k) n =
    let front = digits k (n / 10) in (if ltb n 10 then [] else front) ++ (b'0' + n % 10) ∷ []

number_from-append :
    (n : ℕ) (xs ys : List ℕ) → number_from n (xs ++ ys) ≡ number_from (number_from n xs) ys
unfolding number_from
number_from-append n [] ys = refl
number_from-append n (x ∷ xs) ys = number_from-append (n * 10 + (x - b'0')) xs ys

-- Reading the digits gives the number back.
pub number_from-digits : (k n : ℕ) → n < 10 ^ k → number_from 0 (digits k n) ≡ n
unfolding digits number_from
number_from-digits zero n h = omega arith
number_from-digits (suc k) n h =
    let h10 : n < 10 ^ k * 10 = rw (pow-suc 10 k) at h in
    elim (Bool-cases (ltb n 10)) [
      | inl e ↦ rw e (ground arith)
      | inr e ↦
          rw
            (
              e,
              number_from-append 0 (digits k (n / 10)) ((b'0' + n % 10) ∷ []),
              number_from-digits k (n / 10) (omega arith),
            )
            (omega arith)
    ]

all-append : (p : ℕ → Bool) (xs ys : List ℕ) → all p (xs ++ ys) ≡ (all p xs && all p ys)
all-append p [] ys = refl
all-append p (x ∷ xs) ys = ground (arith, all-append p xs ys)

pub digits-AreDigits : (k n : ℕ) → all is_digit (digits k n) ≡ true
unfolding digits is_digit
digits-AreDigits zero n = refl
digits-AreDigits (suc k) n = elim (Bool-cases (ltb n 10)) [
  | inl e ↦ rw e (ground arith)
  | inr e ↦
      rw
        (
          e,
          all-append is_digit (digits k (n / 10)) ((b'0' + n % 10) ∷ []),
          digits-AreDigits k (n / 10),
        )
        (ground arith)
]

-- One digit at least, and `k` at most.
pub length-digits : (k n : ℕ) → (length (digits k n) ≤ k) × (0 < k → 0 < length (digits k n))
unfolding digits
length-digits zero n = omega arith
length-digits (suc k) n = elim (Bool-cases (ltb n 10)) [
  | inl e ↦ rw e (omega arith)
  | inr e ↦
      rw (e, length-append (digits k (n / 10)) ((b'0' + n % 10) ∷ []))
        (omega (arith, length-digits k (n / 10)))
]
