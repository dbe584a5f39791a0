-- ===== src/Catalog/Legacy.antt =====
-- Hand-written entries beside the generated ones: `_normalise_client`, `_item_key`,
-- `_non_shadowed_legacy` and `_legacy_mismatches`.
pub mod Laws
use homecluster_infra.Base.{
  String, Bool, true, false, not, Option, none, some, List, [], ◌∷◌, ◌++◌, ◌==◌, string_eq,
  contains, sort, if◌then◌else◌,
}
use homecluster_infra.Value.{
  Value, str, list, dict, of_texts, Fields, end, field, lookup, set, get, value_eq,
}
use homecluster_infra.Catalog.Scalars.{clean_string}

normalise_onto : Fields → Fields → List String → Fields
normalise_onto result client [] = result
normalise_onto result client (f ∷ fields) =
    normalise_onto (elim (lookup f client) [ none ↦ result | some v ↦ set f v result ]) client
      fields

-- `{field: client.get(field) for field in fields if field in client}`
unfoldable pub normalise_client : Fields → List String → Fields
unfolding normalise_onto
normalise_client client fields = normalise_onto end client fields

unfoldable pub item_key : Fields → List String → String
item_key item [] = ""
item_key item (key ∷ keys) =
    let value = clean_string (get key item) in
    let rest = item_key item keys in if not (value == "") then value else rest

-- The keys of the generated items, without the empty one.
unfoldable pub generated_keys : List Fields → List String → List String
generated_keys [] keys = []
generated_keys (item ∷ items) keys =
    let more = generated_keys items keys in
    if item_key item keys == "" then more else item_key item keys ∷ more

unfoldable pub non_shadowed_legacy : List Fields → List Fields → List String → List Fields
unfolding generated_keys
non_shadowed_legacy [] generated keys = []
non_shadowed_legacy (item ∷ items) generated keys =
    let more = non_shadowed_legacy items generated keys in
    if contains (generated_keys generated keys) (item_key item keys) then more else item ∷ more

-- `legacy_by_key.get(item_key)`: of several items with one key the last is in the dict, and an item
-- without a key is not.
unfoldable pub legacy_by_key : List Fields → List String → String → Option Fields
legacy_by_key [] keys k = none
legacy_by_key (item ∷ items) keys k = elim (legacy_by_key items keys k) [
  | some found ↦ some found
  | none ↦
      if not (item_key item keys == "")
      then (if item_key item keys == k then some item else none)
      else none
]

-- `[field for field in fields if generated.get(field) != legacy.get(field)]`
unfoldable pub differing_fields : List String → Fields → Fields → List String
differing_fields [] generated legacy = []
differing_fields (f ∷ fields) generated legacy =
    let more = differing_fields fields generated legacy in
    if value_eq (get f generated) (get f legacy) then more else f ∷ more

abbrev pub mismatch_of : String → List String → Value
mismatch_of key fields = dict (field "key" (str key) (field "fields" (list (of_texts fields)) end))

-- The body of the loop over the generated items: what it appends.
unfoldable pub item_mismatches : List Fields → Fields → List String → List String → List Value
unfolding legacy_by_key normalise_client
item_mismatches legacy_items generated fields keys =
    let key = item_key generated keys in
    elim (legacy_by_key legacy_items keys key) [
      | none ↦ []
      | some legacy ↦
          let generated_norm = normalise_client generated fields in
          let legacy_norm = normalise_client legacy fields in
          if value_eq (dict generated_norm) (dict legacy_norm)
          then []
          else mismatch_of key (sort (differing_fields fields generated_norm legacy_norm)) ∷ []
    ]

unfoldable pub legacy_mismatches :
    List Fields → List Fields → List String → List String → List Value
unfolding item_mismatches
legacy_mismatches legacy_items [] fields keys = []
legacy_mismatches legacy_items (generated ∷ items) fields keys =
    item_mismatches legacy_items generated fields keys
    ++ legacy_mismatches legacy_items items fields keys
