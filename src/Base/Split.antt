-- ===== src/Base/Split.antt =====
-- What is joined by a separator of one character is split again.
use Prim.Native.Nat.{ℕ}
use Prim.Native.Char.{Char, code}
use Prim.Native.String.{String, ◌++◌ as ◌<>◌}
use text.Mathlib.TextLemmas.{nil-append, cons-append, append-nil, append_assoc}
use mathlib.Core.Path.{◌≡◌, sym, ap, ◌∙◌}
use mathlib.Core.Bool.{Bool, true, false, not, ◌&&◌}
use mathlib.Core.List.{List, [], ◌∷◌}
use native.Mathlib.Omega.{arith}
use homecluster_infra.Base.Tests.{◌==◌, nat_eq}
use homecluster_infra.Base.Text.{split_from, split, join}

-- The separator does not stand in the text.
abbrev pub is_free : ℕ → String → Bool
is_free sep String.[] = true
is_free sep (String.◌∷◌ c s) = not (code c == sep) && is_free sep s

shift :
    (word : String) (c : Char) (s : String)
    → (word <> String.◌∷◌ c "") <> s ≡ word <> String.◌∷◌ c s
shift word c s =
    append_assoc word (String.◌∷◌ c "") s
    ∙ ap (λ t. word <> t) (cons-append c "" s ∙ ap (String.◌∷◌ c) (nil-append s))

split_from-word :
    (sep : ℕ) (word s : String) → is_free sep s ≡ true → split_from sep word s ≡ (word <> s) ∷ []
unfolding split_from
split_from-word sep word String.[] free = ap (λ t. t ∷ []) (sym (append-nil word))
split_from-word sep word (String.◌∷◌ c s) free =
    let other : (code c == sep) ≡ false = ground arith in
    rw other (
      split_from-word sep (word <> String.◌∷◌ c "") s (ground arith)
      ∙ ap (λ t. t ∷ []) (shift word c s))

split_from-cut :
    (sep : ℕ) (word s : String) (c : Char) (rest : String)
    → is_free sep s ≡ true
    → (code c == sep) ≡ true
    → split_from sep word (s <> String.◌∷◌ c rest) ≡ (word <> s) ∷ split_from sep "" rest
unfolding split_from
split_from-cut sep word String.[] c rest free cut =
    ap (split_from sep word) (nil-append (String.◌∷◌ c rest))
    ∙ rw (split_from, cut) (ap (λ t. t ∷ split_from sep "" rest) (sym (append-nil word)))
split_from-cut sep word (String.◌∷◌ d s) c rest free cut =
    let other : (code d == sep) ≡ false = ground arith in
    ap (split_from sep word) (cons-append d s (String.◌∷◌ c rest))
    ∙ rw (split_from, other)
        (split_from-cut sep (word <> String.◌∷◌ d "") s c rest (ground arith) cut
          ∙ ap (λ t. t ∷ split_from sep "" rest) (shift word d s))

abbrev pub AreFree : ℕ → List String → Type 0
AreFree sep [] = Unit
AreFree sep (word ∷ words) = (is_free sep word ≡ true) × AreFree sep words

-- Words without a separator come back.
pub split-join :
    (c : Char) (word : String) (words : List String)
    → AreFree (code c) (word ∷ words)
    → split (code c) (join (String.◌∷◌ c "") (word ∷ words)) ≡ word ∷ words
unfolding split join
split-join c word [] (free, rest) =
    split_from-word (code c) "" word free ∙ ap (λ t. t ∷ []) (nil-append word)
split-join c word (next ∷ words) (free, rest) =
    let more = join (String.◌∷◌ c "") (next ∷ words) in
    ap (λ t. split_from (code c) "" (word <> t))
      (cons-append c "" more ∙ ap (String.◌∷◌ c) (nil-append more))
    ∙ split_from-cut (code c) "" word c more free (ground arith)
    ∙ ap (λ t. t ∷ split_from (code c) "" more) (nil-append word)
    ∙ ap (λ t. word ∷ t) (split-join c next words rest)
