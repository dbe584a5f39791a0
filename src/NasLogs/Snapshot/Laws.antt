-- ===== src/NasLogs/Snapshot/Laws.antt =====
-- Lines and their words: what is joined is split again.
use homecluster_infra.Base.{
  ℕ, zero, suc, ◌+◌, ◌≤◌, ◌<◌, ◌≡◌, refl, ap, ◌∙◌, Bool, true, false, ◌&&◌, not, some, List, [],
  ◌∷◌, ◌++◌, ◌==◌, nat_eq, string_eq, bytes_eq, bytes_beq_iff, length, length-append, all, All,
  is_digit, arith,
}
use homecluster_infra.NasLogs.Snapshot.{find_line, split_spaces}
use homecluster_infra.NasLogs.Snapshot.Script.{join_spaces}

-- A word has neither a space nor a line feed.
abbrev pub is_plain : List ℕ → Bool
is_plain word = all (λ c. not (c == 32) && not (c == 10)) word

abbrev pub AreWords : List (List ℕ) → Type 0
AreWords words = All (λ word. is_plain word ≡ true) words

abbrev pub no_feed : List ℕ → Bool
no_feed line = all (λ c. not (c == 10)) line

pub find_line-append :
    (n : ℕ) (line rest : List ℕ)
    → no_feed line ≡ true
    → length line < n
    → find_line n (line ++ (10 ∷ rest)) ≡ some (line, rest)
unfolding find_line
find_line-append zero line rest plain short = absurd (omega arith)
find_line-append (suc n) [] rest plain short = refl
find_line-append (suc n) (c ∷ line) rest plain short =
    let this : (c == 10) ≡ false = ground arith in
    rw (this, find_line-append n line rest (ground arith) (omega arith)) refl

split_spaces-word : (word : List ℕ) → is_plain word ≡ true → split_spaces word ≡ word ∷ []
unfolding split_spaces
split_spaces-word [] plain = refl
split_spaces-word (c ∷ word) plain =
    let this : (c == 32) ≡ false = ground arith in
    rw (this, split_spaces-word word (ground arith)) refl

split_spaces-append :
    (word s : List ℕ)
    → is_plain word ≡ true
    → split_spaces (word ++ (32 ∷ s)) ≡ word ∷ split_spaces s
unfolding split_spaces
split_spaces-append [] s plain = refl
split_spaces-append (c ∷ word) s plain =
    let this : (c == 32) ≡ false = ground arith in
    rw (this, split_spaces-append word s (ground arith)) refl

-- The words of a joined line are the joined words.
pub split_spaces-join_spaces :
    (word : List ℕ) (words : List (List ℕ))
    → AreWords (word ∷ words)
    → split_spaces (join_spaces (word ∷ words)) ≡ word ∷ words
unfolding join_spaces
split_spaces-join_spaces word [] (plain, _) = split_spaces-word word plain
split_spaces-join_spaces word (next ∷ words) (plain, good) =
    split_spaces-append word (join_spaces (next ∷ words)) plain
    ∙ ap (λ r. word ∷ r) (split_spaces-join_spaces next words good)

no_feed-append : (xs ys : List ℕ) → no_feed (xs ++ ys) ≡ (no_feed xs && no_feed ys)
no_feed-append [] ys = refl
no_feed-append (x ∷ xs) ys = ground (arith, no_feed-append xs ys)

no_feed-is_plain : (word : List ℕ) → is_plain word ≡ true → no_feed word ≡ true
no_feed-is_plain [] plain = refl
no_feed-is_plain (c ∷ word) plain = ground (arith, no_feed-is_plain word)

pub no_feed-join_spaces :
    (words : List (List ℕ)) → AreWords words → no_feed (join_spaces words) ≡ true
unfolding join_spaces
no_feed-join_spaces [] good = refl
no_feed-join_spaces (word ∷ []) (plain, _) = no_feed-is_plain word plain
no_feed-join_spaces (word ∷ next ∷ words) (plain, good) =
    rw (no_feed-append word (32 ∷ join_spaces (next ∷ words)), no_feed-is_plain word plain)
      (no_feed-join_spaces (next ∷ words) good)

abbrev pub total_length : List (List ℕ) → ℕ
total_length [] = 0
total_length (word ∷ words) = suc (length word) + total_length words

pub length-join_spaces : (words : List (List ℕ)) → length (join_spaces words) ≤ total_length words
unfolding join_spaces
length-join_spaces [] = omega arith
length-join_spaces (word ∷ []) = omega arith
length-join_spaces (word ∷ next ∷ words) =
    rw (length-append word (32 ∷ join_spaces (next ∷ words)))
      (omega (arith, length-join_spaces (next ∷ words)))

pub digit_plain : (xs : List ℕ) → all is_digit xs ≡ true → is_plain xs ≡ true
unfolding is_digit
digit_plain [] h = refl
digit_plain (x ∷ xs) h = ground (arith, digit_plain xs)

pub self_eq : (xs : List ℕ) → (xs == xs) ≡ true
self_eq xs = (bytes_beq_iff xs xs).1 refl
