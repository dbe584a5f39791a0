-- ===== src/Backup/Mounts.antt =====
-- `effective_mount` and `validate_mounts` of k3s_sqlite_backup.py.
--
-- A path that is resolved is its list of names, with none for the root. What the system answers is an
-- argument, `View`: how a path resolves, the text of the table of mounts, and whether two paths are on one device.
pub mod Laws
use homecluster_infra.Base.{
  ℕ, String, Bool, true, false, ◌&&◌, ◌||◌, not, Option, none, some, List, [], ◌∷◌, ◌==◌, string_eq,
  bytes_eq, encode, leb, length, keep, contains, if◌then◌else◌, Result, ok, err, ◌>>=◌, ◌>>◌,
  require,
}
use homecluster_infra.Backup.Table.{Names, Mount, read_mountinfo}

-- A path is below another, or is it.
unfoldable pub is_within : Names → Names → Bool
is_within [] path = true
is_within (x ∷ dir) [] = false
is_within (x ∷ dir) (y ∷ path) = x == y && is_within dir path

abbrev pub same_path : Names → Names → Bool
same_path [] [] = true
same_path [] (y ∷ ys) = false
same_path (x ∷ xs) [] = false
same_path (x ∷ xs) (y ∷ ys) = x == y && same_path xs ys

-- `max` by the number of names, the last of the longest: `best` is the best so far.
unfoldable pub longest : Mount → List Mount → Mount
longest best [] = best
longest best (m ∷ mounts) =
    longest (if leb (length best.point) (length m.point) then m else best) mounts

abbrev pub longest_of : List Mount → Result Mount
longest_of [] = err "no mountinfo entry for path"
longest_of (m ∷ mounts) = ok (longest m mounts)

unfoldable pub effective_mount : Names → List Mount → Result Mount
unfolding longest is_within
effective_mount path mounts = longest_of (keep (λ (m : Mount). is_within m.point path) mounts)

-- `PERSISTENT_FILESYSTEMS`
abbrev pub persistent_filesystems : List String
persistent_filesystems = "ext4" ∷ "xfs" ∷ "btrfs" ∷ "zfs" ∷ "nfs" ∷ "nfs4" ∷ []

abbrev pub is_empty_text : String → Bool
is_empty_text text = text == ""

-- What the operator says of the two directories.
pub record Expected : Type 0 where
  pub data_dir : String
  pub destination : String
  pub source_mount : String
  pub destination_mount : String
  pub destination_fstype : String
  pub destination_source : String
  pub source_fstype : String
  pub source_mount_source : String
  pub require_distinct_device : Bool

pub record View : Type 0 where
  pub resolve : String → Result Names
  pub mountinfo : Result (List ℕ)
  pub same_device : Names → Names → Bool

unfoldable pub is_mount : Mount → Names → String → String → Bool
unfolding encode
is_mount m point fstype source =
    same_path m.point point && m.fstype == encode fstype && m.source == encode source

-- The checks that need no table of mounts, on the resolved paths.
unfoldable pub check_paths :
    Expected → (source source_point target target_point : Names) → Result (Unit {0})
unfolding is_within ◌>>=◌
check_paths e source source_point target target_point =
    require (same_path source source_point) "data-dir must equal its expected source mountpoint"
    >> (require (is_within target_point target)
          "destination must reside under its expected mountpoint"
        >> (require (not (same_path target_point []))
              "root filesystem is not a valid backup destination mount"
            >> (require
                  (contains persistent_filesystems e.source_fstype
                    && contains persistent_filesystems e.destination_fstype)
                  "expected filesystem must be persistent"
                >> require
                    (not
                      (is_empty_text e.destination_source || is_empty_text e.source_mount_source))
                    "both expected mount sources must be specified")))

-- The checks against the table of mounts.
unfoldable pub check_mounts :
    Expected → View → (source source_point target target_point : Names) → Result (Unit {0})
unfolding effective_mount read_mountinfo is_mount ◌>>=◌
check_mounts e v source source_point target target_point = v.mountinfo >>= λ text.
    read_mountinfo text >>= λ mounts. effective_mount source mounts >>= λ src.
    effective_mount target mounts >>= λ dst.
    require (is_mount src source_point e.source_fstype e.source_mount_source)
      "k3s data-dir is not the expected persistent mount"
    >> (require (is_mount dst target_point e.destination_fstype e.destination_source)
          "backup destination is not the expected mounted filesystem"
        >> require (not (e.require_distinct_device && v.same_device source target))
            "destination must be on a different filesystem")

unfoldable pub validate_mounts : Expected → View → Result (Unit {0})
unfolding check_paths check_mounts ◌>>=◌
validate_mounts e v = v.resolve e.data_dir >>= λ source.
    v.resolve e.source_mount >>= λ source_point. v.resolve e.destination >>= λ target.
    v.resolve e.destination_mount >>= λ target_point.
    check_paths e source source_point target target_point
    >> check_mounts e v source source_point target target_point
