-- ===== src/NasLogs/Records.antt =====
-- `completed_records` of nas_file_logs_core.py: the records of a file behind the cursor's offset, each
-- with the offset of its end.
pub mod Laws
pub mod Resume
use homecluster_infra.Base.{
  ℕ, zero, suc, ◌+◌, String, Bool, true, false, ◌&&◌, ◌||◌, not, Option, none, some, List, [], ◌∷◌,
  ◌++◌, ◌==◌, nat_eq, string_eq, leb, length, all, any, is_empty, is_digit, encode, drop,
  if◌then◌else◌,
}

-- A `d` of the pattern stands for a digit, any other byte for itself: a match at the start.
unfoldable pub matches : List ℕ → List ℕ → Bool
unfolding is_digit
matches [] s = true
matches (p ∷ pattern) [] = false
matches (p ∷ pattern) (c ∷ s) = (if p == b'd' then is_digit c else p == c) && matches pattern s

-- `SAMBA_HEADER.match(raw)`
abbrev is_samba_header : List ℕ → Bool
is_samba_header raw = matches (encode "[dddd/dd/dd dd:dd:dd") raw

-- What is left of a text after one of the words, after one or more bytes of a class, after four
-- digits; `none` where there is no match.
after : List ℕ → List ℕ → Option (List ℕ)
after [] s = some s
after (p ∷ word) [] = none
after (p ∷ word) (c ∷ s) = if p == c then after word s else none

after_one_of : List String → List ℕ → Option (List ℕ)
unfolding after encode
after_one_of [] s = none
after_one_of (word ∷ words) s = elim (after (encode word) s) [
  | none ↦ after_one_of words s
  | some rest ↦ some rest
]

skip : (ℕ → Bool) → List ℕ → List ℕ
skip p [] = []
skip p (c ∷ s) = let rest = skip p s in if p c then rest else c ∷ s

after_some : (ℕ → Bool) → Option (List ℕ) → Option (List ℕ)
unfolding skip
after_some p none = none
after_some p (some []) = none
after_some p (some (c ∷ s)) = if p c then some (skip p s) else none

after_byte : ℕ → Option (List ℕ) → Option (List ℕ)
after_byte b none = none
after_byte b (some []) = none
after_byte b (some (c ∷ s)) = if c == b then some s else none

abbrev is_blank : ℕ → Bool
is_blank c = leb 9 c && leb c 13 || c == 32

-- `[0-9]{4}\s*$`
is_year_end : Option (List ℕ) → Bool
unfolding is_digit
is_year_end (some (a ∷ b ∷ c ∷ d ∷ s)) =
    is_digit a && is_digit b && is_digit c && is_digit d && all is_blank s
is_year_end s = false

abbrev is_space_byte : ℕ → Bool
is_space_byte c = c == 32

abbrev is_time_byte : ℕ → Bool
is_time_byte c = is_digit c || c == b':'

abbrev weekdays : List String
weekdays = "Mon" ∷ "Tue" ∷ "Wed" ∷ "Thu" ∷ "Fri" ∷ "Sat" ∷ "Sun" ∷ []

abbrev months : List String
months =
    "Jan" ∷ "Feb" ∷ "Mar" ∷ "Apr" ∷ "May" ∷ "Jun" ∷ "Jul" ∷ "Aug" ∷ "Sep" ∷ "Oct" ∷ "Nov" ∷ "Dec"
    ∷ []

after_month : Option (List ℕ) → Option (List ℕ)
unfolding after_one_of
after_month none = none
after_month (some s) = after_one_of months s

-- `HAL_DATE.match(raw)`
is_hal_date : List ℕ → Bool
unfolding after_one_of after_month after_byte after_some is_year_end is_digit
is_hal_date raw =
    let month = after_month (after_byte 32 (after_one_of weekdays raw)) in
    let day = after_some is_digit (after_some is_space_byte month) in
    let time = after_some is_time_byte (after_byte 32 day) in is_year_end (after_byte 32 time)

abbrev pub is_samba_kind : String → Bool
is_samba_kind kind = kind == "samba" || kind == "smbd" || kind == "nmbd" || kind == "winbindd"

-- The kinds whose records have several lines.
abbrev pub is_grouped : String → Bool
is_grouped kind = is_samba_kind kind || kind == "hal_daemon"

unfoldable pub is_header : String → List ℕ → Bool
unfolding matches encode is_hal_date
is_header kind raw =
    if is_samba_kind kind
    then is_samba_header raw
    else if kind == "hal_daemon"
    then is_hal_date raw
    else false

unfoldable pub first_byte_of : ℕ → List (List ℕ) × List ℕ → List (List ℕ) × List ℕ
first_byte_of c ([], rest) = ([], c ∷ rest)
first_byte_of c (line ∷ lines, rest) = ((c ∷ line) ∷ lines, rest)

-- `s.split(b'\n')`: the parts but the last with their line feeds, and the last.
unfoldable pub split_lines : List ℕ → List (List ℕ) × List ℕ
unfolding first_byte_of
split_lines [] = ([], [])
split_lines (c ∷ s) =
    let more = split_lines s in
    if c == 10 then ((10 ∷ []) ∷ more.0, more.1) else first_byte_of c more

-- A raw record and the offset of its end.
abbrev pub Ended : Type 0
Ended = List ℕ × ℕ

unfoldable pub number_lines : ℕ → List (List ℕ) → List Ended
number_lines pos [] = []
number_lines pos (raw ∷ lines) = (raw, pos + length raw) ∷ number_lines (pos + length raw) lines

-- `lines`: an incomplete last line counts only in a file that was rotated away.
unfoldable pub lines_behind : List ℕ → ℕ → Bool → List Ended
unfolding split_lines number_lines drop
lines_behind bytes offset rotated =
    let parts = split_lines (drop offset bytes) in
    if rotated && not (is_empty parts.1)
    then number_lines offset (parts.0 ++ (parts.1 ∷ []))
    else number_lines offset parts.0

-- `groups[-1]`: raw bytes, end, whether it began with a header, and its number of lines.
pub record Group : Type 0 where
  pub raw : List ℕ
  pub end : ℕ
  pub headed : Bool
  pub lines : ℕ

unfoldable pub open_group : String → Ended → Group
open_group kind (raw, end) = record {
  raw = raw;
  end = end;
  headed = is_grouped kind && is_header kind raw;
  lines = 1;
}

unfoldable pub extend_group : Group → Ended → Group
extend_group g (raw, end) = record g { raw = g.raw ++ raw; end = end; lines = g.lines + 1 }

-- A line that begins a record of its own.
unfoldable pub begins : String → Ended → Bool
begins kind (raw, end) = if is_grouped kind then is_header kind raw else true

-- A header alone at the end of a file that grew since the last poll, and was not rotated, waits.
unfoldable pub is_complete : Bool → Bool → Group → Bool
is_complete rotated quiet g = not (g.headed && g.lines == 1 && not rotated && not quiet)

-- The loop over the lines, with the last of the groups so far; the others are records already.
unfoldable pub collect : String → Bool → Bool → Option Group → List Ended → List Ended
unfolding open_group extend_group begins is_complete
collect kind rotated quiet none [] = []
collect kind rotated quiet (some g) [] =
    if is_complete rotated quiet g then (g.raw, g.end) ∷ [] else []
collect kind rotated quiet none (line ∷ lines) =
    collect kind rotated quiet (some (open_group kind line)) lines
collect kind rotated quiet (some g) (line ∷ lines) =
    let next = (g.raw, g.end) ∷ collect kind rotated quiet (some (open_group kind line)) lines in
    let same = collect kind rotated quiet (some (extend_group g line)) lines in
    if begins kind line then next else same

-- `seen_size == len(data)`; `none` is the -1 of a file with no cursor.
abbrev pub is_quiet : Option ℕ → ℕ → Bool
is_quiet none size = false
is_quiet (some seen) size = seen == size

unfoldable pub completed_records : List ℕ → ℕ → String → Option ℕ → Bool → List Ended
unfolding lines_behind collect
completed_records bytes offset kind seen_size rotated =
    collect kind rotated (is_quiet seen_size (length bytes)) none
      (lines_behind bytes offset rotated)

-- `records[-1][1] if records else offset`
unfoldable pub last_end : ℕ → List Ended → ℕ
last_end offset [] = offset
last_end offset ((raw, end) ∷ records) = last_end end records
