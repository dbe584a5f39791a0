-- ===== src/Value/Text.antt =====
-- `str(value)` and `bool(value)`.
use homecluster_infra.Base.{
  ℕ, suc, ◌/◌, ◌%◌, Char, code, String, ◌<>◌, ◌≡◌, refl, Bool, true, false, ◌&&◌, ◌||◌, not, List,
  [], ◌∷◌, ltb, leb, ◌==◌, nat_eq, string_eq, if◌then◌else◌, decimal, join,
}
use homecluster_infra.Value.Data.{
  ℤ, pos, negsuc, Value, null, bool, int, str, list, dict, Items, nil, cons, Fields, end, field,
}

has_code : ℕ → String → Bool
has_code n String.[] = false
has_code n (String.◌∷◌ c s) = code c == n || has_code n s

hex_digit : ℕ → String
hex_digit n =
    if ltb n 10
    then decimal n
    else if n == 10
    then "a"
    else if n == 11
    then "b"
    else if n == 12
    then "c"
    else if n == 13
    then "d"
    else if n == 14
    then "e"
    else "f"

-- A character inside `repr(s)`, with the quote that stands round it. Characters from U+00A0 on are
-- taken to be printable.
escaped : ℕ → Char → String
escaped quote c =
    let n = code c in
    if n == quote || n == 92
    then "\\" <> String.◌∷◌ c ""
    else if n == 10
    then "\\n"
    else if n == 13
    then "\\r"
    else if n == 9
    then "\\t"
    else if ltb n 32 || (leb 127 n && ltb n 160)
    then "\\x" <> (hex_digit (n / 16) <> hex_digit (n % 16))
    else String.◌∷◌ c ""

escape : ℕ → String → String
escape quote String.[] = ""
escape quote (String.◌∷◌ c s) = escaped quote c <> escape quote s

-- `repr(s)` of a text: double quotes where it holds a single quote and no double one.
repr : String → String
unfolding escape escaped hex_digit has_code
repr s =
    if has_code 39 s && not (has_code 34 s)
    then "\"" <> (escape 34 s <> "\"")
    else "'" <> (escape 39 s <> "'")

int_text : ℤ → String
int_text (pos n) = decimal n
int_text (negsuc n) = "-" <> decimal (suc n)

bool_text : Bool → String
bool_text true = "True"
bool_text false = "False"

mutual
  value_repr : Value → String
  value_repr null = "None"
  value_repr (bool b) = bool_text b
  value_repr (int n) = int_text n
  value_repr (str s) = repr s
  value_repr (list xs) = "[" <> (join ", " (items_repr xs) <> "]")
  value_repr (dict d) = "{" <> (join ", " (fields_repr d) <> "}")

  items_repr : Items → List String
  items_repr nil = []
  items_repr (cons x xs) = value_repr x ∷ items_repr xs

  fields_repr : Fields → List String
  fields_repr end = []
  fields_repr (field k v d) = (repr k <> (": " <> value_repr v)) ∷ fields_repr d

-- `str(value)`
unfoldable pub text : Value → String
unfolding value_repr repr int_text bool_text
text (str s) = s
text v = value_repr v

-- `bool(value)`
unfoldable pub truth : Value → Bool
truth null = false
truth (bool b) = b
truth (int (pos n)) = not (n == 0)
truth (int (negsuc n)) = true
truth (str s) = not (s == "")
truth (list nil) = false
truth (list (cons x xs)) = true
truth (dict end) = false
truth (dict (field k v d)) = true

text_test :
    text (
      list
        (cons (str "it's") (cons (dict (field "a" (int (negsuc 1)) end)) (cons (bool true) nil))))
    ≡ "[\"it's\", {'a': -2}, True]"
unfolding text decimal join
text_test = refl
