-- ===== src/Catalog/Scalars/Laws.antt =====
-- Cleaned texts are trimmed and stay so, and label lists collect each text once.
use homecluster_infra.Base.{
  ap, ◌∙◌, AreFree, split-join, split, join, map, String, ◌≡◌, ◌≢◌, refl, false, ◌||◌, ◌&&◌, not,
  List, [], ◌∷◌, ◌++◌, ◌==◌, string_eq, strip, strip_idem, contains, contains-append, All, arith,
  eq_iff, Bool-cases, inl, inr,
}
use homecluster_infra.Value.{Value, null, str}
use homecluster_infra.Catalog.Scalars.{
  as_list, stripped, clean_string, clean_strings, append_clean_unique, append_all,
}

-- A cleaned text that is not empty.
abbrev pub IsClean : String → Type 0
IsClean s = (strip s ≡ s) × (s ≢ "")

-- No text stands twice.
abbrev pub AreUnique : List String → Type 0
AreUnique [] = Unit
AreUnique (s ∷ rest) = (contains rest s ≡ false) × AreUnique rest

append-AreUnique :
    (items : List String) (s : String)
    → AreUnique items
    → contains items s ≡ false
    → AreUnique (items ++ s ∷ [])
append-AreUnique [] s u new = (refl, tt)
append-AreUnique (x ∷ items) s (fresh, u) new = (
  ground (arith, contains-append items (s ∷ []) x, eq_iff x s, eq_iff s x),
  append-AreUnique items s u (ground arith),
)

append-All :
    (items : List String) (s : String)
    → All IsClean items
    → IsClean s
    → All IsClean (items ++ s ∷ [])
append-All [] s a c = (c, tt)
append-All (x ∷ items) s (h, a) c = (h, append-All items s a c)

strip-clean_string : (v : Value) → strip (clean_string v) ≡ clean_string v
unfolding clean_string
strip-clean_string null = unfold strip in refl
strip-clean_string v = strip_idem _

clean_string-IsClean : (v : Value) → (clean_string v == "") ≡ false → IsClean (clean_string v)
clean_string-IsClean v h = (strip-clean_string v, ground (arith, eq_iff (clean_string v) ""))

append_clean_unique-AreUnique :
    (items : List String) (v : Value)
    → AreUnique items
    → All IsClean items
    → AreUnique (append_clean_unique items v) × All IsClean (append_clean_unique items v)
unfolding append_clean_unique
append_clean_unique-AreUnique items v u a = elim (Bool-cases (clean_string v == "")) [
  | inl e ↦ rw e (u, a)
  | inr e ↦ elim (Bool-cases (contains items (clean_string v))) [
    | inl old ↦ rw (e, old) (u, a)
    | inr new ↦
        rw (e, new)
          (append-AreUnique items _ u new, append-All items _ a (clean_string-IsClean v e))
  ]
]

contains-append_clean_unique :
    (items : List String) (v : Value) (k : String)
    → contains (append_clean_unique items v) k
      ≡ (contains items k || (not (clean_string v == "") && clean_string v == k))
unfolding append_clean_unique
contains-append_clean_unique items v k =
    ground (arith, contains-append items (clean_string v ∷ []) k, eq_iff (clean_string v) k)

-- If the labels so far are trimmed, not empty and different from one another, so are the labels
-- after the loop.
pub append_all-AreUnique :
    (items : List String) (vs : List Value)
    → AreUnique items
    → All IsClean items
    → AreUnique (append_all items vs) × All IsClean (append_all items vs)
unfolding append_all
append_all-AreUnique items [] u a = (u, a)
append_all-AreUnique items (v ∷ vs) u a =
    let (u', a') = append_clean_unique-AreUnique items v u a in
    append_all-AreUnique (append_clean_unique items v) vs u' a'

-- A text is among the labels exactly if it was there before or is one of the cleaned values.
pub contains-append_all :
    (items : List String) (vs : List Value) (k : String)
    → contains (append_all items vs) k ≡ (contains items k || contains (clean_strings vs) k)
unfolding append_all clean_strings
contains-append_all items [] k = ground arith
contains-append_all items (v ∷ vs) k =
    rw (contains-append_all (append_clean_unique items v) vs k)
      (ground (arith, contains-append_clean_unique items v k))

-- No word is blank.
abbrev pub AreWritten : List String → Type 0
AreWritten [] = Unit
AreWritten (word ∷ words) = ((strip word == "") ≡ false) × AreWritten words

stripped-AreWritten :
    (words : List String) → AreWritten words → stripped words ≡ map (λ w. str (strip w)) words
unfolding stripped
stripped-AreWritten [] written = refl
stripped-AreWritten (word ∷ words) (this, written) =
    rw this (ap (λ vs. str (strip word) ∷ vs) (stripped-AreWritten words written))

-- A text setting of words without a comma, none of them blank, joined by commas is read as the list
-- of these words, trimmed, in their order.
pub as_list-join :
    (words : List String)
    → AreFree b',' words
    → AreWritten words
    → as_list (str (join "," words)) ≡ map (λ w. str (strip w)) words
unfolding as_list
as_list-join [] free written = unfold split join strip in refl
as_list-join (word ∷ words) free written =
    ap stripped (split-join "," word words free) ∙ stripped-AreWritten (word ∷ words) written
