-- ===== src/Base/Text.antt =====
-- The operations of Python's `str` that the program uses, on code points.
use Prim.Native.Nat.{ℕ, zero, suc, ◌+◌, ◌/◌, ◌%◌}
use Prim.Native.Char.{Char, code}
use Prim.Native.String.{String, ◌++◌ as ◌<>◌}
use mathlib.Core.Path.{◌≡◌, refl}
use mathlib.Core.Logic.{inl, inr}
use mathlib.Core.Bool.{Bool, true, false, ◌&&◌, ◌||◌}
use mathlib.Core.List.{List, [], ◌∷◌}
use native.Mathlib.Omega.{arith}
use homecluster_infra.Base.Tests.{leb, ltb, ◌==◌, nat_eq, string_eq, if◌then◌else◌, Bool-cases}

-- `str.isspace` of one character.
unfoldable pub is_space : Char → Bool
is_space c =
    let n = code c in
    (leb 9 n && leb n 13)
    || (leb 28 n && leb n 32)
    || n == 0x85
    || n == 0xA0
    || n == 0x1680
    || (leb 0x2000 n && leb n 0x200A)
    || n == 0x2028
    || n == 0x2029
    || n == 0x202F
    || n == 0x205F
    || n == 0x3000

unfoldable pub lstrip : String → String
lstrip String.[] = ""
lstrip (String.◌∷◌ c s) = let rest = lstrip s in if is_space c then rest else String.◌∷◌ c s

unfoldable pub rstrip : String → String
rstrip String.[] = ""
rstrip (String.◌∷◌ c s) =
    let rest = rstrip s in if is_space c && rest == "" then "" else String.◌∷◌ c rest

-- `s.strip()`
unfoldable pub strip : String → String
unfolding lstrip rstrip is_space
strip s = rstrip (lstrip s)

rstrip_idem : (s : String) → rstrip (rstrip s) ≡ rstrip s
unfolding rstrip
rstrip_idem String.[] = refl
rstrip_idem (String.◌∷◌ c s) = elim (Bool-cases (is_space c && rstrip s == "")) [
  | inl e ↦ rw e
  | inr e ↦ rw (e, rstrip_idem s, e)
]

lstrip-rstrip : (s : String) → lstrip (rstrip (lstrip s)) ≡ rstrip (lstrip s)
unfolding rstrip lstrip
lstrip-rstrip String.[] = refl
lstrip-rstrip (String.◌∷◌ c s) = ground (arith, lstrip-rstrip s)

-- A trimmed text is left alone.
pub strip_idem : (s : String) → strip (strip s) ≡ strip s
unfolding strip
strip_idem s = ground (arith, lstrip-rstrip s, rstrip_idem (lstrip s))

-- `s.split(sep)` for a separator of one character, `word` being what was read of the field so far.
unfoldable pub split_from : ℕ → String → String → List String
split_from sep word String.[] = word ∷ []
split_from sep word (String.◌∷◌ c s) =
    let go_on = split_from sep (word <> String.◌∷◌ c "") s in
    let cut = split_from sep "" s in if code c == sep then word ∷ cut else go_on

unfoldable pub split : ℕ → String → List String
unfolding split_from
split sep s = split_from sep "" s

-- `sep.join(parts)`
unfoldable pub join : String → List String → String
join sep [] = ""
join sep (x ∷ []) = x
join sep (x ∷ y ∷ rest) = x <> (sep <> join sep (y ∷ rest))

-- A letter of ASCII without its case; `lower` of other letters gives no ASCII letter but for the
-- Kelvin sign, whose lower case is `k`.
lower_code : ℕ → ℕ
lower_code n = if leb 65 n && leb n 90 then n + 32 else if n == 0x212A then 107 else n

-- `s.lower() == word`, for a word without capitals.
unfoldable pub lower_is : String → String → Bool
unfolding lower_code
lower_is String.[] String.[] = true
lower_is String.[] (String.◌∷◌ d w) = false
lower_is (String.◌∷◌ c s) String.[] = false
lower_is (String.◌∷◌ c s) (String.◌∷◌ d w) = lower_code (code c) == code d && lower_is s w

digit : ℕ → String
digit n =
    if n == 0
    then "0"
    else if n == 1
    then "1"
    else if n == 2
    then "2"
    else if n == 3
    then "3"
    else if n == 4
    then "4"
    else if n == 5
    then "5"
    else if n == 6
    then "6"
    else if n == 7
    then "7"
    else if n == 8
    then "8"
    else "9"

-- A number has at most as many digits as itself and one, which is the fuel.
decimal_from : ℕ → ℕ → String
decimal_from zero n = ""
decimal_from (suc fuel) n =
    let front = decimal_from fuel (n / 10) in if ltb n 10 then digit n else front <> digit (n % 10)

-- `str(n)` of a natural number.
unfoldable pub decimal : ℕ → String
unfolding decimal_from digit
decimal n = decimal_from (suc n) n

-- `s <= t`: the order of code points.
unfoldable pub text_le : String → String → Bool
text_le String.[] t = true
text_le (String.◌∷◌ c s) String.[] = false
text_le (String.◌∷◌ c s) (String.◌∷◌ d t) =
    ltb (code c) (code d) || (code c == code d && text_le s t)

tests :
    (strip "  a b " ≡ "a b")
    × (split b',' "a,,b" ≡ "a" ∷ "" ∷ "b" ∷ [])
    × (join "," ("a" ∷ "b" ∷ []) ≡ "a,b")
    × (decimal 1400 ≡ "1400")
    × (decimal 0 ≡ "0")
    × (lower_is "Yes" "yes" ≡ true)
    × (text_le "ab" "b" ≡ true)
unfolding strip split join decimal lower_is text_le
tests = (refl, refl, refl, refl, refl, refl, refl)

insert_text : String → List String → List String
insert_text s [] = s ∷ []
insert_text s (t ∷ rest) = if text_le s t then s ∷ t ∷ rest else t ∷ insert_text s rest

-- `sorted(texts)`
unfoldable pub sort : List String → List String
unfolding insert_text text_le
sort [] = []
sort (s ∷ rest) = insert_text s (sort rest)
