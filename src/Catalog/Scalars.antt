-- ===== src/Catalog/Scalars.antt =====
-- The readers of loosely typed settings: `_as_bool`, `_as_list`, `_clean_string`, `_first_present`
-- and `_append_clean_unique`.
pub mod Laws
use homecluster_infra.Base.{
  String, Bool, true, false, ◌||◌, ◌&&◌, not, List, [], ◌∷◌, ◌++◌, ◌==◌, string_eq, strip, split,
  lower_is, contains, if◌then◌else◌,
}
use homecluster_infra.Value.{Value, null, bool, int, str, list, dict, to_list, text, truth}

unfoldable pub as_bool : Value → Bool
unfolding truth
as_bool (bool b) = b
as_bool null = false
as_bool (str s) =
    let word = strip s in
    lower_is word "1" || lower_is word "true" || lower_is word "yes" || lower_is word "on"
as_bool v = truth v

-- `[item.strip() for item in items if item.strip()]`
unfoldable pub stripped : List String → List Value
stripped [] = []
stripped (item ∷ rest) =
    let more = stripped rest in if strip item == "" then more else str (strip item) ∷ more

unfoldable pub as_list : Value → List Value
unfolding stripped
as_list null = []
as_list (str s) = stripped (split b',' s)
as_list (list xs) = to_list xs
as_list v = v ∷ []

unfoldable pub clean_string : Value → String
unfolding text
clean_string null = ""
clean_string v = strip (text v)

-- The values are the arguments of `_first_present`, in order.
unfoldable pub first_present : List Value → Value
first_present [] = null
first_present (null ∷ rest) = first_present rest
first_present (v ∷ rest) = v

-- The list comes back, which the source appends to in place.
unfoldable pub append_clean_unique : List String → Value → List String
append_clean_unique items value =
    let item = clean_string value in
    if not (item == "") && not (contains items item) then items ++ item ∷ [] else items

-- `[_clean_string(item) for item in items if _clean_string(item)]`
unfoldable pub clean_strings : List Value → List String
clean_strings [] = []
clean_strings (item ∷ rest) =
    let more = clean_strings rest in
    if clean_string item == "" then more else clean_string item ∷ more

-- `for item in values: _append_clean_unique(items, item)`
unfoldable pub append_all : List String → List Value → List String
append_all items [] = items
append_all items (value ∷ rest) = append_all (append_clean_unique items value) rest
