-- ===== src/Catalog/Merge/Overlay.antt =====
-- What a merge takes from the overlay.
use homecluster_infra.Base.{
  String, ◌≡◌, refl, ◌⊎◌, inl, inr, true, false, ◌&&◌, some, List, [], ◌∷◌, ◌++◌, ◌==◌, string_eq,
  arith, eq_iff, Option-cases, Bool-cases, sym, subst,
}
use homecluster_infra.Value.{
  Value, dict, Fields, end, field, lookup, set, value_eq, is_mapping, lookup-set_self,
  is_mapping-eq,
}
use homecluster_infra.Catalog.Merge.{merge, entry, both, leaf_conflict}
use homecluster_infra.Catalog.Merge.Laws.{at, base_kept}

-- Either the value itself, or one that `==` does not tell from it.
abbrev pub Agrees : Value → Value → Type 0
Agrees w v = (w ≡ v) ⊎ (value_eq w v ≡ true)

-- A value that is no dict stands at the path, and it agrees with `v`.
abbrev pub Found : List String → Value → Value → Type 0
Found p d v = (w : Value) × (at p d ≡ some w) × (is_mapping w ≡ false) × Agrees w v

no_leaf_conflict :
    (current value : Value) (path : List String)
    → leaf_conflict current value path ≡ []
    → value_eq current value ≡ true
no_leaf_conflict current value path h = ground arith

module _ (v : Value) (leaf : is_mapping v ≡ false) where
  other-Found :
      (current value : Value) (q : List String)
      → (is_mapping current && is_mapping value) ≡ false
      → value_eq current value ≡ true
      → at q value ≡ some v
      → Found q current v
  other-Found current value [] split same h =
      (current, refl, ground (arith, is_mapping-eq current value same), inr (ground arith))
  other-Found current (dict d) (k ∷ q) split same h =
      absurd (ground (arith, is_mapping-eq current (dict d) same))
  other-Found current value (k ∷ q) split same h = cc

  Found-set :
      (key : String) (q : List String) (x : Value) (base : Fields)
      → Found q x v
      → Found (key ∷ q) (dict (set key x base)) v
  Found-set key q x base (w, here, flat, agrees) =
      (w, rw (lookup-set_self key x base, at) here, flat, agrees)

  Found-old :
      (key : String) (q : List String) (x : Value) (base : Fields)
      → lookup key base ≡ some x
      → Found q x v
      → Found (key ∷ q) (dict base) v
  Found-old key q x base old (w, here, flat, agrees) = (w, rw (old, at) here, flat, agrees)

  module _ (nested : Fields → Fields × List Value) (base : Fields) (key : String)
      (path : List String) where
    both-Found :
        (current value : Value) (q : List String)
        → ((inner sub : Fields)
            → current ≡ dict inner
            → value ≡ dict sub
            → (nested inner).1 ≡ []
            → Found q (dict (nested inner).0) v)
        → lookup key base ≡ some current
        → at q value ≡ some v
        → (both nested base key current value path).1 ≡ []
        → Found (key ∷ q) (dict (both nested base key current value path).0) v
    unfolding both
    both-Found (dict inner) (dict value) q merged old h quiet =
        Found-set key q (dict (nested inner).0) base (merged inner value refl refl quiet)
    both-Found (dict inner) value q merged old h quiet =
        Found-old key q (dict inner) base old
          (other-Found (dict inner) value q refl (no_leaf_conflict _ value path quiet) h)
    both-Found current value q merged old h quiet =
        Found-old key q current base old
          (other-Found current value q refl (no_leaf_conflict current value path quiet) h)

    entry-Found :
        (value : Value) (q : List String)
        → ((inner sub : Fields)
            → value ≡ dict sub
            → (nested inner).1 ≡ []
            → Found q (dict (nested inner).0) v)
        → at q value ≡ some v
        → (entry nested base key value path).1 ≡ []
        → Found (key ∷ q) (dict (entry nested base key value path).0) v
    unfolding entry
    entry-Found value q merged h quiet = elim (Option-cases (lookup key base)) [
      | inl new ↦ rw (new, entry) (Found-set key q value base (v, h, leaf, inl refl))
      | inr (current, old) ↦
          let here : (both nested base key current value path).1 ≡ [] = rw (old, entry) at quiet in
          rw (old, entry)
            (both-Found current value q (λ inner sub _ e. merged inner sub e) old h here)
    ]

  append-nil_parts : (xs ys : List Value) → xs ++ ys ≡ [] → (xs ≡ []) × (ys ≡ [])
  append-nil_parts [] ys h = (refl, h)
  append-nil_parts (x ∷ xs) ys h = cc

  keep-Found :
      (merged rest : Fields) (path p : List String)
      → Found p (dict merged) v
      → Found p (dict (merge merged rest path).0) v
  keep-Found merged rest path p (w, here, flat, agrees) =
      (w, base_kept merged rest path p w flat here, flat, agrees)

  -- The head entry of the overlay, or one that comes later.
  at_head :
      (key : String) (value : Value) (rest : Fields) (p : List String)
      → at p (dict (field key value rest)) ≡ some v
      → ((q : List String) × (p ≡ key ∷ q) × (at q value ≡ some v)) ⊎ (at p (dict rest) ≡ some v)
  unfolding lookup
  at_head key value rest [] h = absurd (ground arith)
  at_head key value rest (k ∷ q) h = elim (Bool-cases (key == k)) [
    | inl e ↦ inl (q, ground (arith, eq_iff key k), rw (e, at) at h)
    | inr e ↦ inr (rw (e, at) at h)
  ]

  nothing_at_end : (p : List String) → at p (dict end) ≡ some v → ⊥
  unfolding lookup
  nothing_at_end [] h = ground arith
  nothing_at_end (k ∷ q) h = cc

  cons-Found :
      (step : Fields × List Value) (key : String) (value : Value) (rest : Fields)
      (path p : List String)
      → ((q : List String) → at q value ≡ some v → step.1 ≡ [] → Found (key ∷ q) (dict step.0) v)
      → (at p (dict rest) ≡ some v
          → (merge step.0 rest path).1 ≡ []
          → Found p (dict (merge step.0 rest path).0) v)
      → at p (dict (field key value rest)) ≡ some v
      → step.1 ++ (merge step.0 rest path).1 ≡ []
      → Found p (dict (merge step.0 rest path).0) v
  cons-Found step key value rest path p head more h quiet =
      let (quiet_head, quiet_rest) = append-nil_parts step.1 _ quiet in
      elim (at_head key value rest p h) [
        | inl (q, e, here) ↦
            keep-Found step.0 rest path p
              (subst (λ r. Found r (dict step.0) v) (sym e) (head q here quiet_head))
        | inr later ↦ more later quiet_rest
      ]

  -- If a merge reports no conflict, every value of the overlay that is no dict stands in the result
  -- at its path, as itself or as a value that `==` does not tell from it.
  pub overlay-Found :
      (base overlay : Fields) (path p : List String)
      → at p (dict overlay) ≡ some v
      → (merge base overlay path).1 ≡ []
      → Found p (dict (merge base overlay path).0) v
  unfolding merge
  overlay-Found base end path p h quiet = absurd (nothing_at_end p h)
  overlay-Found base (field key (dict value) rest) path p h quiet =
      cons-Found _ key (dict value) rest path p
        (λ q here still.
          entry-Found _ base key (path ++ key ∷ []) (dict value) q
            (λ inner sub _ e. overlay-Found inner value (path ++ key ∷ []) q here e) here still)
        (λ later. overlay-Found _ rest path p later) h quiet
  overlay-Found base (field key value rest) path p h quiet =
      cons-Found _ key value rest path p
        (λ q here still.
          entry-Found _ base key (path ++ key ∷ []) value q (λ inner sub e _. cc) here still)
        (λ later. overlay-Found _ rest path p later) h quiet
