-- ===== src/Catalog/Legacy/Laws.antt =====
-- Generated entries override hand-written ones, and an empty report means that they agree.
use homecluster_infra.Base.{
  String, ◌≡◌, ◌≢◌, refl, inl, inr, true, false, Option, none, some, List, [], ◌∷◌, ◌++◌, ◌∙◌, sym,
  ◌==◌, string_eq, nat_eq, contains, arith, eq_iff, if◌then◌else◌, Bool-cases, Option-cases,
}
use homecluster_infra.Value.{
  Value, dict, Fields, end, lookup, set, value_eq, lookup-dict_eq, lookup-set,
}
use homecluster_infra.Catalog.Legacy.{
  normalise_client, normalise_onto, item_key, generated_keys, non_shadowed_legacy, legacy_by_key,
  item_mismatches, legacy_mismatches,
}

module _ (keys : List String) where
  -- The first item with a key.
  abbrev pub find_item : List Fields → String → Option Fields
  find_item [] k = none
  find_item (item ∷ items) k = if item_key item keys == k then some item else find_item items k

  find_absent :
      (items : List Fields) (k : String)
      → k ≢ ""
      → contains (generated_keys items keys) k ≡ false
      → find_item items k ≡ none
  unfolding generated_keys
  find_absent [] k named h = refl
  find_absent (item ∷ items) k named h = ground (
    arith,
    find_absent items k named,
    eq_iff (item_key item keys) k,
    eq_iff (item_key item keys) "",
  )

  -- Looking a key that is not the empty text up among the joined items finds the generated entry if
  -- there is one, and the hand-written one otherwise.
  pub find-non_shadowed_legacy :
      (legacy generated : List Fields) (k : String)
      → k ≢ ""
      → find_item (non_shadowed_legacy legacy generated keys ++ generated) k ≡ (
          if contains (generated_keys generated keys) k
          then find_item generated k
          else find_item legacy k)
  unfolding non_shadowed_legacy
  find-non_shadowed_legacy [] generated k named = ground (arith, find_absent generated k named)
  find-non_shadowed_legacy (item ∷ legacy) generated k named =
      elim (Bool-cases (contains (generated_keys generated keys) (item_key item keys))) [
        | inl shadowed ↦ rw shadowed (
            ground (
              arith,
              find-non_shadowed_legacy legacy generated k named,
              eq_iff (item_key item keys) k,
            ))
        | inr kept ↦ rw kept (
            ground (
              arith,
              find-non_shadowed_legacy legacy generated k named,
              eq_iff (item_key item keys) k,
            ))
      ]

lookup-normalise_onto :
    (result client : Fields) (fields : List String) (f : String)
    → lookup f (normalise_onto result client fields) ≡ (
        if contains fields f
        then (elim (lookup f client) [ none ↦ lookup f result | some v ↦ some v ])
        else lookup f result)
unfolding normalise_onto
lookup-normalise_onto result client [] f = refl
lookup-normalise_onto result client (g ∷ fields) f = elim (Option-cases (lookup g client)) [
  | inl e ↦ rw (e, lookup-normalise_onto result client fields f) (ground (arith, eq_iff g f))
  | inr (v, e) ↦
      rw (e, lookup-normalise_onto (set g v result) client fields f)
        (ground (arith, eq_iff g f, lookup-set f g v result))
]

lookup-normalise_client :
    (client : Fields) (fields : List String) (f : String)
    → contains fields f ≡ true
    → lookup f (normalise_client client fields) ≡ lookup f client
lookup-normalise_client client fields f h =
    unfold normalise_client lookup in lookup-normalise_onto end client fields f ∙ ground arith

append-nil_parts {ℓ} : {A : Type ℓ} (xs ys : List A) → xs ++ ys ≡ [] → (xs ≡ []) × (ys ≡ [])
append-nil_parts [] ys h = (refl, h)
append-nil_parts (x ∷ xs) ys h = cc

quiet_item :
    (legacy_items : List Fields) (g legacy : Fields) (fields keys : List String)
    → item_mismatches legacy_items g fields keys ≡ []
    → legacy_by_key legacy_items keys (item_key g keys) ≡ some legacy
    → value_eq (dict (normalise_client g fields)) (dict (normalise_client legacy fields)) ≡ true
quiet_item legacy_items g legacy fields keys quiet here =
    unfold item_mismatches in
    elim (Bool-cases
      (value_eq (dict (normalise_client g fields)) (dict (normalise_client legacy fields)))) [
        | inl e ↦ e
        | inr e ↦ absurd (ground arith)
      ]

-- An empty report means agreement: a compared field of a generated entry stands with an equal value
-- in the hand-written entry of the same key.
pub legacy_mismatches_none :
    (legacy_items before after : List Fields) (g legacy : Fields) (fields keys : List String)
    (f : String) (v : Value)
    → legacy_mismatches legacy_items (before ++ g ∷ after) fields keys ≡ []
    → legacy_by_key legacy_items keys (item_key g keys) ≡ some legacy
    → contains fields f ≡ true
    → lookup f g ≡ some v
    → (w : Value) × (lookup f legacy ≡ some w) × (value_eq v w ≡ true)
unfolding legacy_mismatches
legacy_mismatches_none legacy_items [] after g legacy fields keys f v quiet here compared there =
    let (quiet_g, _) = append-nil_parts (item_mismatches legacy_items g fields keys) _ quiet in
    let (w, e, same) =
      lookup-dict_eq (normalise_client g fields) (normalise_client legacy fields) f v
        (quiet_item legacy_items g legacy fields keys quiet_g here)
        (lookup-normalise_client g fields f compared ∙ there) in
    (w, sym (lookup-normalise_client legacy fields f compared) ∙ e, same)
legacy_mismatches_none legacy_items (b ∷ before) after g legacy fields keys f v quiet here compared
      there =
    let (_, rest) = append-nil_parts (item_mismatches legacy_items b fields keys) _ quiet in
    legacy_mismatches_none legacy_items before after g legacy fields keys f v rest here compared
      there
