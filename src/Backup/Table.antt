-- ===== src/Backup/Table.antt =====
-- `read_mountinfo` of k3s_sqlite_backup.py, on ASCII text.
use homecluster_infra.Base.{
  ℕ, ◌+◌, ◌-◌, ◌*◌, Bool, ◌&&◌, ◌||◌, Option, none, some, List, [], ◌∷◌, ◌++◌, ◌==◌, nat_eq,
  bytes_eq, leb, is_empty, if◌then◌else◌, Result, ok, err, ◌>>=◌, encode, ◌≡◌, refl,
}
use homecluster_infra.FeedProof.Lines.{splitlines, split_words}

-- The names of a path, as pathlib has them: empty names and `.` are left out.
abbrev pub Names : Type 0
Names = List (List ℕ)

pub record Mount : Type 0 where
  pub point : Names
  pub fstype : List ℕ
  pub source : List ℕ

is_octal : ℕ → Bool
is_octal c = leb b'0' c && leb c b'7'

-- A backslash and three octal digits stand for a character.
unfoldable pub unescape_mount_field : List ℕ → List ℕ
unfolding is_octal
unescape_mount_field (b ∷ x ∷ y ∷ z ∷ s) =
    let short = unescape_mount_field s in
    let rest = unescape_mount_field (x ∷ y ∷ z ∷ s) in
    if b == 92 && is_octal x && is_octal y && is_octal z
    then ((x - b'0') * 64 + (y - b'0') * 8 + (z - b'0')) ∷ short
    else b ∷ rest
unescape_mount_field s = s

add_name : List ℕ → Names → Names
add_name name names = if is_empty name || name == 46 ∷ [] then names else name ∷ names

names_from : List ℕ → List ℕ → Names
unfolding add_name
names_from name [] = add_name name []
names_from name (c ∷ s) =
    let cut = names_from [] s in
    let go_on = names_from (name ++ c ∷ []) s in if c == b'/' then add_name name cut else go_on

-- `Path(text)`
unfoldable pub path_of : List ℕ → Names
unfolding names_from
path_of text = names_from [] text

-- `line.partition(" - ")`, `none` where there is no separator.
unfoldable pub partition_dash : List ℕ → Option (List ℕ × List ℕ)
partition_dash (x ∷ y ∷ z ∷ s) =
    let found = partition_dash (y ∷ z ∷ s) in
    if x == 32 && y == b'-' && z == 32
    then some ([], s)
    else elim found [ none ↦ none | some (pre, post) ↦ some (x ∷ pre, post) ]
partition_dash s = none

-- The fields before and after the separator.
mount_of : List (List ℕ) → List (List ℕ) → Result Mount
unfolding unescape_mount_field path_of
mount_of (a ∷ b ∷ c ∷ d ∷ point ∷ more) (fstype ∷ source ∷ rest) = ok (record {
  point = path_of (unescape_mount_field point);
  fstype = unescape_mount_field fstype;
  source = unescape_mount_field source;
})
mount_of fields fs = err "invalid mountinfo fields"

unfoldable pub read_line : List ℕ → Result Mount
unfolding partition_dash mount_of split_words
read_line line = elim (partition_dash line) [
  | none ↦ err "invalid mountinfo record"
  | some (pre, post) ↦ mount_of (split_words pre) (split_words post)
]

unfoldable pub read_all : List (List ℕ) → Result (List Mount)
unfolding read_line ◌>>=◌
read_all [] = ok []
read_all (line ∷ lines) = read_line line >>= λ m. read_all lines >>= λ mounts. ok (m ∷ mounts)

some_mounts : List Mount → Result (List Mount)
some_mounts [] = err "mountinfo is empty"
some_mounts (m ∷ mounts) = ok (m ∷ mounts)

unfoldable pub read_mountinfo : List ℕ → Result (List Mount)
unfolding read_all some_mounts splitlines ◌>>=◌
read_mountinfo text = read_all (splitlines text) >>= some_mounts

tests :
    read_mountinfo (encode "36 35 8:1 / /mnt/my\\040nas rw shared:1 - nfs4 nas:/k3s rw\n")
    ≡ ok (
        record {
          point = encode "mnt" ∷ encode "my nas" ∷ [];
          fstype = encode "nfs4";
          source = encode "nas:/k3s";
        }
        ∷ [])
unfolding read_mountinfo read_all read_line partition_dash mount_of path_of unescape_mount_field
    splitlines split_words encode ◌>>=◌
tests = refl
