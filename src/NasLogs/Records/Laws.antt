-- ===== src/NasLogs/Records/Laws.antt =====
-- The records of one poll are the bytes behind the offset, in order, up to what is kept back.
use homecluster_infra.Base.{
  ℕ, ◌+◌, ◌≡◌, refl, sym, ap, ◌∙◌, subst, String, Bool, true, ◌&&◌, not, Option, none, some, List,
  [], ◌∷◌, ◌++◌, ◌==◌, nat_eq, string_eq, length, length-append, is_empty, drop, arith, Bool-cases,
  inl, inr, false-true,
}
use mathlib.Core.List.{append_assoc, append-nil}
use homecluster_infra.NasLogs.Records.{
  split_lines, first_byte_of, Ended, number_lines, lines_behind, Group, open_group, extend_group,
  begins, is_complete, collect, is_quiet, completed_records,
}

-- The bytes of the records, one after the other.
abbrev pub flat : List Ended → List ℕ
flat [] = []
flat ((raw, end) ∷ records) = raw ++ flat records

-- Each record ends as many bytes behind the one before as it has.
abbrev pub AreConsecutive : ℕ → List Ended → Type 0
AreConsecutive start [] = Unit
AreConsecutive start ((raw, end) ∷ records) =
    (end ≡ start + length raw) × AreConsecutive end records

abbrev concat : List (List ℕ) → List ℕ
concat [] = []
concat (line ∷ lines) = line ++ concat lines

concat-first_byte_of :
    (c : ℕ) (parts : List (List ℕ) × List ℕ)
    → concat (first_byte_of c parts).0 ++ (first_byte_of c parts).1
      ≡ c ∷ (concat parts.0 ++ parts.1)
unfolding first_byte_of
concat-first_byte_of c ([], rest) = refl
concat-first_byte_of c (line ∷ lines, rest) = refl

concat-split_lines : (s : List ℕ) → (concat (split_lines s).0 ++ (split_lines s).1) ≡ s
unfolding split_lines
concat-split_lines [] = refl
concat-split_lines (c ∷ s) = elim (Bool-cases (c == 10)) [
  | inl e ↦
      let same : c ≡ 10 = ground arith in rw e (rw same (ap (λ r. 10 ∷ r) (concat-split_lines s)))
  | inr e ↦ rw e (concat-first_byte_of c (split_lines s) ∙ ap (λ r. c ∷ r) (concat-split_lines s))
]

flat-number_lines : (pos : ℕ) (lines : List (List ℕ)) → flat (number_lines pos lines) ≡ concat lines
unfolding number_lines
flat-number_lines pos [] = refl
flat-number_lines pos (raw ∷ lines) =
    ap (λ r. raw ++ r) (flat-number_lines (pos + length raw) lines)

number_lines-AreConsecutive :
    (pos : ℕ) (lines : List (List ℕ)) → AreConsecutive pos (number_lines pos lines)
unfolding number_lines
number_lines-AreConsecutive pos [] = tt
number_lines-AreConsecutive pos (raw ∷ lines) =
    (refl, number_lines-AreConsecutive (pos + length raw) lines)

concat-append : (xs ys : List (List ℕ)) → concat (xs ++ ys) ≡ concat xs ++ concat ys
concat-append [] ys = refl
concat-append (x ∷ xs) ys =
    ap (λ r. x ++ r) (concat-append xs ys) ∙ sym (append_assoc x (concat xs) (concat ys))

nil_of_empty : (xs : List ℕ) → is_empty xs ≡ true → xs ≡ []
nil_of_empty [] h = refl
nil_of_empty (x ∷ xs) h = absurd (false-true h)

complete_rotated : (quiet : Bool) (g : Group) → is_complete true quiet g ≡ true
unfolding is_complete
complete_rotated quiet g = ground arith

-- The lines are the bytes behind the offset, up to an incomplete last line.
lines_behind_lem :
    (bytes : List ℕ) (offset : ℕ) (rotated : Bool)
    → (rest : List ℕ) × (flat (lines_behind bytes offset rotated) ++ rest ≡ drop offset bytes)
      × AreConsecutive offset (lines_behind bytes offset rotated)
      × (rotated ≡ true → rest ≡ [])
unfolding lines_behind
lines_behind_lem bytes offset rotated =
    let parts = split_lines (drop offset bytes) in
    elim (Bool-cases (rotated && not (is_empty parts.1))) [
      | inl e ↦ rw e (
        [],
        append-nil _
            ∙ flat-number_lines offset (parts.0 ++ (parts.1 ∷ []))
            ∙ concat-append parts.0 (parts.1 ∷ [])
            ∙ ap (λ r. concat parts.0 ++ r) (append-nil parts.1)
            ∙ concat-split_lines (drop offset bytes),
        number_lines-AreConsecutive offset (parts.0 ++ (parts.1 ∷ [])),
        λ h. refl,
      )
      | inr e ↦ rw e (
        parts.1,
        ap (λ r. r ++ parts.1) (flat-number_lines offset parts.0)
            ∙ concat-split_lines (drop offset bytes),
        number_lines-AreConsecutive offset parts.0,
        λ h. nil_of_empty parts.1 (ground arith),
      )
    ]

-- The group so far, as bytes.
abbrev raw_of : Option Group → List ℕ
raw_of none = []
raw_of (some g) = g.raw

abbrev EndsAt : Option Group → ℕ → ℕ → Type 0
EndsAt none start end = start ≡ end
EndsAt (some g) start end = (g.end ≡ end) × (end ≡ start + length g.raw)

collect_lem :
    (kind : String) (rotated quiet : Bool) (group : Option Group) (lines : List Ended)
    (start end : ℕ)
    → EndsAt group start end
    → AreConsecutive end lines
    → (rest : List ℕ) × (flat (collect kind rotated quiet group lines) ++ rest
        ≡ raw_of group ++ flat lines)
      × AreConsecutive start (collect kind rotated quiet group lines)
      × (rotated ≡ true → rest ≡ [])
unfolding collect
collect_lem kind rotated quiet none [] start end e c = ([], refl, tt, λ h. refl)
collect_lem kind rotated quiet (some g) [] start end (e, f) c =
    elim (Bool-cases (is_complete rotated quiet g)) [
      | inl h ↦ rw h ([], append-nil _, (e ∙ f, tt), λ r. refl)
      | inr h ↦ rw h (
        g.raw,
        sym (append-nil g.raw),
        tt,
        λ r.
            absurd
              (false-true (sym h ∙ ap (λ b. is_complete b quiet g) r ∙ complete_rotated quiet g)),
      )
    ]
collect_lem kind rotated quiet none ((raw, fin) ∷ lines) start end e (f, c) =
    collect_lem kind rotated quiet (some (open_group kind (raw, fin))) lines start fin
      (refl, omega (arith, e, f)) c
collect_lem kind rotated quiet (some g) ((raw, fin) ∷ lines) start end (e, f) (h, c) =
    elim (Bool-cases (begins kind (raw, fin))) [
      | inl b ↦
          let (rest, all_bytes, steps, none_left) =
            collect_lem kind rotated quiet (some (open_group kind (raw, fin))) lines end fin
              (refl, h) c in
          rw b (
            rest,
            append_assoc g.raw _ rest ∙ ap (λ r. g.raw ++ r) all_bytes,
            (
              e ∙ f,
              subst
                  (λ k.
                    AreConsecutive k
                      (collect kind rotated quiet (some (open_group kind (raw, fin))) lines))
                  (sym e) steps,
            ),
            none_left,
          )
      | inr b ↦ rw b (
          let (rest, all_bytes, steps, none_left) =
            collect_lem kind rotated quiet (some (extend_group g (raw, fin))) lines start fin
              (refl, (rw (length-append g.raw raw) (omega (arith, f, h)))) c in
          (rest, all_bytes ∙ append_assoc g.raw raw (flat lines), steps, none_left))
    ]

-- The records of a log behind an offset are its bytes in order, each record ending where the next
-- begins, up to bytes that are kept back; nothing is kept back of a file that was rotated away.
pub completed_records-flat :
    (bytes : List ℕ) (offset : ℕ) (kind : String) (seen_size : Option ℕ) (rotated : Bool)
    → (rest : List ℕ) × (flat (completed_records bytes offset kind seen_size rotated) ++ rest
        ≡ drop offset bytes)
      × AreConsecutive offset (completed_records bytes offset kind seen_size rotated)
      × (rotated ≡ true → rest ≡ [])
unfolding completed_records
completed_records-flat bytes offset kind seen_size rotated =
    let (tail, all_bytes, steps, none_tail) = lines_behind_lem bytes offset rotated in
    let (held, kept, ends, none_held) =
      collect_lem kind rotated (is_quiet seen_size (length bytes)) none
        (lines_behind bytes offset rotated) offset offset refl steps in
    (
      held ++ tail,
      sym (append_assoc _ held tail) ∙ ap (λ r. r ++ tail) kept ∙ all_bytes,
      ends,
      λ r. ap (λ xs. xs ++ tail) (none_held r) ∙ none_tail r,
    )
