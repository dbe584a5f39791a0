-- ===== src/Catalog/Merge/Laws.antt =====
-- What a merge keeps of its two sides, value by value and path by path.
use homecluster_infra.Base.{
  String, ◌≡◌, inl, inr, false, Option, none, some, List, [], ◌∷◌, ◌++◌, string_eq, arith, eq_iff,
  Option-cases,
}
use homecluster_infra.Value.{Value, dict, Fields, end, field, lookup, set, is_mapping, lookup-set}
use homecluster_infra.Catalog.Merge.{merge, entry, both}

abbrev pub child : String → Value → Option Value
child k (dict d) = lookup k d
child k _ = none

-- The value at a path of keys.
abbrev pub at : List String → Value → Option Value
at [] v = some v
at (k ∷ p) v = elim (child k v) [ none ↦ none | some w ↦ at p w ]

-- A key that is written anew hides nothing.
pub at-set_new :
    (k key : String) (p : List String) (x v : Value) (base : Fields)
    → lookup key base ≡ none
    → at (k ∷ p) (dict base) ≡ some v
    → at (k ∷ p) (dict (set key x base)) ≡ some v
at-set_new k key p x v base new h = ground (arith, lookup-set k key x base, eq_iff key k)

at-set_over :
    (k key : String) (p : List String) (x y v : Value) (base : Fields)
    → lookup key base ≡ some x
    → (at p x ≡ some v → at p y ≡ some v)
    → at (k ∷ p) (dict base) ≡ some v
    → at (k ∷ p) (dict (set key y base)) ≡ some v
at-set_over k key p x y v base old keep h = ground (arith, lookup-set k key y base, eq_iff key k)

not_at_root : (base : Fields) (v : Value) → is_mapping v ≡ false → some (dict base) ≡ some v → ⊥
not_at_root base v leaf h = ground arith

-- What a nested merge keeps, a round keeps.
module _ (nested : Fields → Fields × List Value) (base : Fields) (key : String) (path : List String)
    (v : Value) (leaf : is_mapping v ≡ false)
    (keep : (inner : Fields) (q : List String)
      → at q (dict inner) ≡ some v
      → at q (dict (nested inner).0) ≡ some v) where
  both-at :
      (current value : Value) (k : String) (p : List String)
      → lookup key base ≡ some current
      → at (k ∷ p) (dict base) ≡ some v
      → at (k ∷ p) (dict (both nested base key current value path).0) ≡ some v
  unfolding both
  both-at (dict inner) (dict value) k p old h =
      at-set_over k key p (dict inner) (dict (nested inner).0) v base old (keep inner p) h
  both-at current value k p old h = h

  entry-at :
      (value : Value) (p : List String)
      → at p (dict base) ≡ some v
      → at p (dict (entry nested base key value path).0) ≡ some v
  unfolding entry
  entry-at value [] h = absurd (not_at_root base v leaf h)
  entry-at value (k ∷ p) h = elim (Option-cases (lookup key base)) [
    | inl new ↦ rw (new, entry) (at-set_new k key p value v base new h)
    | inr (current, old) ↦ rw (old, entry) (both-at current value k p old h)
  ]

-- A merge never changes or drops a value of the base that is no dict: it stays at its path.
pub base_kept :
    (base overlay : Fields) (path p : List String) (v : Value)
    → is_mapping v ≡ false
    → at p (dict base) ≡ some v
    → at p (dict (merge base overlay path).0) ≡ some v
unfolding merge
base_kept base end path p v leaf h = h
base_kept base (field key (dict value) rest) path p v leaf h = base_kept _ rest path p v leaf (
    entry-at _ base key (path ++ key ∷ []) v leaf
      (λ inner q g. base_kept inner value (path ++ key ∷ []) q v leaf g) (dict value) p h)
base_kept base (field key value rest) path p v leaf h =
    base_kept _ rest path p v leaf
      (entry-at _ base key (path ++ key ∷ []) v leaf (λ inner q g. g) value p h)
