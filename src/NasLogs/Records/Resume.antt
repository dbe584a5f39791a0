-- ===== src/NasLogs/Records/Resume.antt =====
-- A later poll goes on where the earlier one stopped.
use homecluster_infra.Base.{
  ℕ, zero, suc, ◌+◌, ◌≤◌, ◌≡◌, refl, sym, ap, ◌∙◌, String, Bool, true, false, Option, List, [], ◌∷◌,
  ◌++◌, length, length-append, drop, drop-append, arith,
}
use mathlib.Core.List.{append_assoc}
use native.Mathlib.Nat.{zero-add, suc-add}
use homecluster_infra.NasLogs.Records.{Ended, completed_records, last_end}
use homecluster_infra.NasLogs.Records.Laws.{flat, AreConsecutive, completed_records-flat}

pub last_end-flat :
    (start : ℕ) (records : List Ended)
    → AreConsecutive start records
    → last_end start records ≡ start + length (flat records)
unfolding last_end
last_end-flat start [] steps = omega arith
last_end-flat start ((raw, end) ∷ records) (e, steps) =
    last_end-flat end records steps ∙ omega (arith, e, length-append raw (flat records))

drop-nil : {A : Type 0} (n : ℕ) → drop {A = A} n [] ≡ []
unfolding drop
drop-nil zero = refl
drop-nil (suc n) = refl

drop-add : {A : Type 0} (a b : ℕ) (xs : List A) → drop (a + b) xs ≡ drop b (drop a xs)
unfolding drop
drop-add zero b xs = rw (zero-add b) refl
drop-add (suc a) b [] = drop-nil (suc a + b) ∙ sym (drop-nil b)
drop-add (suc a) b (x ∷ xs) = rw (suc-add a b) (drop-add a b xs)

drop-append_le :
    {A : Type 0} (a : ℕ) (xs ys : List A) → a ≤ length xs → drop a (xs ++ ys) ≡ drop a xs ++ ys
unfolding drop
drop-append_le zero xs ys h = refl
drop-append_le (suc a) [] ys h = absurd (omega arith)
drop-append_le (suc a) (x ∷ xs) ys h = drop-append_le a xs ys (omega arith)

-- A log is read from an offset within it, grows, and is read again from the end of the last record:
-- the records of the two reads together are the bytes behind the offset in order, none twice and
-- none left out, up to bytes that the second read keeps back; it keeps nothing back of a file that
-- was rotated away.
pub completed_records-resume :
    (bytes more : List ℕ) (offset : ℕ) (kind : String) (seen_size seen_later : Option ℕ)
    (rotated : Bool)
    → offset ≤ length bytes
    → (rest : List ℕ) × (flat (completed_records bytes offset kind seen_size false)
          ++ (flat (
                completed_records
                  (bytes ++ more)
                  (last_end offset (completed_records bytes offset kind seen_size false))
                  kind
                  seen_later
                  rotated)
              ++ rest)
        ≡ drop offset (bytes ++ more))
      × (rotated ≡ true → rest ≡ [])
completed_records-resume bytes more offset kind seen_size seen_later rotated h =
    let first = completed_records bytes offset kind seen_size false in
    let (kept, first_bytes, steps, _) = completed_records-flat bytes offset kind seen_size false in
    let middle = last_end offset first in
    let (rest, second_bytes, _, all_sent) =
      completed_records-flat (bytes ++ more) middle kind seen_later rotated in
    let behind : drop offset (bytes ++ more) ≡ flat first ++ (kept ++ more) =
      drop-append_le offset bytes more h
      ∙ ap (λ r. r ++ more) (sym first_bytes)
      ∙ append_assoc (flat first) kept more in
    let left : drop middle (bytes ++ more) ≡ kept ++ more =
      ap (λ k. drop k (bytes ++ more)) (last_end-flat offset first steps)
      ∙ drop-add offset (length (flat first)) (bytes ++ more)
      ∙ ap (drop (length (flat first))) behind
      ∙ drop-append (flat first) (kept ++ more) in
    (rest, ap (λ r. flat first ++ r) (second_bytes ∙ left) ∙ sym behind, all_sent)
