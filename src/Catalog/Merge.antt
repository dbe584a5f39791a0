-- ===== src/Catalog/Merge.antt =====
-- `_merge_nested_mapping` and `_mapping_legacy_mismatches` of the catalog filter: group variables
-- that come from several places are joined, and what disagrees is reported.
pub mod Laws
pub mod Overlay
use homecluster_infra.Base.{
  String, Bool, true, false, Option, none, some, List, [], ◌∷◌, ◌++◌, join, if◌then◌else◌,
}
use homecluster_infra.Value.{Value, dict, str, Fields, end, field, lookup, set, value_eq}

-- `{"path": ".".join(current_path)}`
abbrev pub conflict : List String → Value
conflict path = dict (field "path" (str (join "." path)) end)

-- What an overlay value does to a value that is there already, when not both are dicts.
abbrev pub leaf_conflict : Value → Value → List String → List Value
leaf_conflict current value path = if value_eq current value then [] else conflict path ∷ []

-- A key that both sides have: dicts are merged by `nested`, and any other current value stays.
unfoldable pub both :
    (Fields → Fields × List Value)
    → Fields
    → String
    → Value
    → Value
    → List String
    → Fields × List Value
both nested merged key (dict inner) (dict value) path =
    let child = nested inner in (set key (dict child.0) merged, child.1)
both nested merged key current value path = (merged, leaf_conflict current value path)

-- One round of the loop over `overlay.items()`: the new `merged`, and the conflicts of the key.
unfoldable pub entry :
    (Fields → Fields × List Value) → Fields → String → Value → List String → Fields × List Value
unfolding both
entry nested merged key value path = elim (lookup key merged) [
  | none ↦ (set key value merged, [])
  | some current ↦ both nested merged key current value path
]

-- `_merge_nested_mapping`, with `base` copied to `merged`.
unfoldable pub merge : Fields → Fields → List String → Fields × List Value
unfolding entry
merge merged end path = (merged, [])
merge merged (field key (dict value) rest) path =
    let current_path = path ++ key ∷ [] in
    let step =
      entry (λ inner. merge inner value current_path) merged key (dict value) current_path in
    let more = merge step.0 rest path in (more.0, step.1 ++ more.1)
merge merged (field key value rest) path =
    let step = entry (λ inner. (inner, [])) merged key value (path ++ key ∷ []) in
    let more = merge step.0 rest path in (more.0, step.1 ++ more.1)

-- `_merge_nested_mapping(base, overlay)`, at the empty path.
abbrev pub merge_nested_mapping : Fields → Fields → Fields × List Value
merge_nested_mapping base overlay = merge base overlay []

abbrev mismatch : String → String → Value
mismatch key kind = dict (field "key" (str key) (field "type" (str kind) end))

unfoldable pub mapping_legacy_mismatches : Fields → Fields → List Value
mapping_legacy_mismatches end generated = []
mapping_legacy_mismatches (field key legacy_value rest) generated =
    let more = mapping_legacy_mismatches rest generated in
    elim (lookup key generated) [
      | none ↦ mismatch key "missing_generated" ∷ more
      | some value ↦
          if value_eq value legacy_value then more else mismatch key "different_value" ∷ more
    ]
