-- ===== src/Capture/Config.antt =====
-- `config` of security_capture.py, of the JSON value that the file holds.
use homecluster_infra.Base.{
  ℕ, String, Bool, false, ◌&&◌, ◌||◌, not, List, [], ◌∷◌, ◌==◌, string_eq, nat_eq, leb, length, all,
  contains, encode, is_digit, Result, ok, err, ◌>>=◌, ◌>>◌, require,
}
use homecluster_infra.Value.{Value, dict, int, str, pos, Fields, field, end, get, has, keys}
use homecluster_infra.Capture.Station.{Profile}

is_lower : ℕ → Bool
is_lower c = leb b'a' c && leb c b'z'

is_upper : ℕ → Bool
is_upper c = leb b'A' c && leb c b'Z'

-- `[a-z0-9]`, and `[a-z0-9_.-]`.
is_name_start : ℕ → Bool
unfolding is_lower is_digit
is_name_start c = is_lower c || is_digit c

is_name_rest : ℕ → Bool
unfolding is_name_start
is_name_rest c = is_name_start c || c == b'_' || c == b'.' || c == b'-'

-- One byte of the first class, and up to `n` of the second.
is_word : (ℕ → Bool) → (ℕ → Bool) → ℕ → List ℕ → Bool
is_word first rest n [] = false
is_word first rest n (c ∷ s) = first c && leb (length s) n && all rest s

-- `NAME.fullmatch(name)`
unfoldable pub is_profile_name : String → Bool
unfolding is_word is_name_start is_name_rest encode
is_profile_name name = is_word is_name_start is_name_rest 63 (encode name)

-- `[a-zA-Z0-9]`, and `[a-zA-Z0-9_.:-]`.
is_interface_start : ℕ → Bool
unfolding is_name_start is_upper
is_interface_start c = is_name_start c || is_upper c

is_interface_rest : ℕ → Bool
unfolding is_name_rest is_upper
is_interface_rest c = is_name_rest c || is_upper c || c == b':'

read_interface : Value → Result String
unfolding is_word is_interface_start is_interface_rest encode ◌>>=◌
read_interface (str s) =
    require (is_word is_interface_start is_interface_rest 31 (encode s)) "interface" >> ok s
read_interface value = err "interface"

read_filter : Value → Result String
unfolding encode ◌>>=◌
read_filter (str s) =
    require
      (leb 1 (length (encode s))
        && leb (length (encode s)) 4096
        && all (λ c. not (c == 0) && not (c == 10)) (encode s))
      "filter"
    >> ok s
read_filter value = err "filter"

read_duration : Value → Result ℕ
unfolding ◌>>=◌
read_duration (int (pos n)) = require (leb 1 n && leb n 180) "duration" >> ok n
read_duration value = err "duration"

-- `set(d) == {...}`
abbrev has_keys : List String → Fields → Bool
has_keys names d = all (contains names) (keys d) && all (λ name. has name d) names

read_profile : Value → Result Profile
unfolding read_interface read_filter read_duration has get keys ◌>>=◌
read_profile (dict d) =
    require (has_keys ("interface" ∷ "filter" ∷ "duration_seconds" ∷ []) d) "profile_schema"
    >> (read_interface (get "interface" d) >>= λ interface. read_filter (get "filter" d) >>= λ bpf.
        read_duration (get "duration_seconds" d) >>= λ duration.
        ok (record { interface = interface; bpf = bpf; duration_seconds = duration }))
read_profile value = err "profile_name"

unfoldable pub read_profiles : Fields → Result (List (String × Profile))
unfolding is_profile_name read_profile ◌>>=◌
read_profiles end = ok []
read_profiles (field name value more) =
    require (is_profile_name name) "profile_name"
    >> (read_profile value >>= λ profile.
        read_profiles more >>= λ profiles. ok ((name, profile) ∷ profiles))

abbrev is_one : Value → Bool
is_one (int (pos n)) = n == 1
is_one value = false

count_and_read : Value → Result (List (String × Profile))
unfolding read_profiles keys ◌>>=◌
count_and_read (dict d) =
    require (leb 1 (length (keys d)) && leb (length (keys d)) 8) "profile_count" >> read_profiles d
count_and_read value = err "configuration_schema"

unfoldable pub config : Fields → Result (List (String × Profile))
unfolding count_and_read has get keys ◌>>=◌
config data_fields =
    require (has_keys ("schema" ∷ "profiles" ∷ []) data_fields && is_one (get "schema" data_fields))
      "configuration_schema"
    >> count_and_read (get "profiles" data_fields)
