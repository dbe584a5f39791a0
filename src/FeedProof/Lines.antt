-- ===== src/FeedProof/Lines.antt =====
-- `bytes.decode("ascii").splitlines()`, `strip` and `split()` of a line, on bytes: the text
-- operations of `parse_feed` in banip_feed_proof.py.
use homecluster_infra.Base.{
  encode, ℕ, ◌≡◌, refl, Bool, true, false, ◌&&◌, ◌||◌, List, [], ◌∷◌, ◌++◌, ◌==◌, nat_eq, leb, ltb,
  all, is_empty, if◌then◌else◌,
}

-- `data.decode("ascii")` does not raise.
abbrev pub is_ascii : List ℕ → Bool
is_ascii bytes = all (λ b. ltb b 128) bytes

-- Where `splitlines` ends a line of ASCII text.
is_break : ℕ → Bool
is_break b = (leb 10 b && leb b 13) || (leb 28 b && leb b 30)

-- `line` is what was read of the line; a line feed right after a carriage return ends no line.
lines_from : Bool → List ℕ → List ℕ → List (List ℕ)
lines_from after_return line [] = if is_empty line then [] else line ∷ []
lines_from after_return line (b ∷ s) =
    let same_break = lines_from false line s in
    let cut = lines_from (b == 13) [] s in
    let go_on = lines_from false (line ++ b ∷ []) s in
    if b == 10 && after_return then same_break else if is_break b then line ∷ cut else go_on

unfoldable pub splitlines : List ℕ → List (List ℕ)
unfolding lines_from is_break
splitlines s = lines_from false [] s

is_space_byte : ℕ → Bool
is_space_byte b = (leb 9 b && leb b 13) || (leb 28 b && leb b 32)

drop_spaces : List ℕ → List ℕ
drop_spaces [] = []
drop_spaces (b ∷ s) = let rest = drop_spaces s in if is_space_byte b then rest else b ∷ s

drop_end_spaces : List ℕ → List ℕ
drop_end_spaces [] = []
drop_end_spaces (b ∷ s) =
    let rest = drop_end_spaces s in if is_space_byte b && is_empty rest then [] else b ∷ rest

-- `line.strip()`
unfoldable pub strip_line : List ℕ → List ℕ
unfolding drop_spaces drop_end_spaces is_space_byte
strip_line line = drop_end_spaces (drop_spaces line)

-- `not line or line.startswith("#")`
abbrev pub is_skipped : List ℕ → Bool
is_skipped [] = true
is_skipped (b ∷ s) = b == b'#'

words_from : List ℕ → List ℕ → List (List ℕ)
words_from word [] = if is_empty word then [] else word ∷ []
words_from word (b ∷ s) =
    let cut = words_from [] s in
    let go_on = words_from (word ++ b ∷ []) s in
    if is_space_byte b then (if is_empty word then cut else word ∷ cut) else go_on

-- `line.split()`
unfoldable pub split_words : List ℕ → List (List ℕ)
unfolding words_from is_space_byte
split_words line = words_from [] line

tests :
    (splitlines (encode "a\r\nb\n\nc") ≡ encode "a" ∷ encode "b" ∷ [] ∷ encode "c" ∷ [])
    × (split_words (strip_line (encode "  a\tbc ")) ≡ encode "a" ∷ encode "bc" ∷ [])
unfolding splitlines encode split_words strip_line
tests = (refl, refl)
