-- ===== src/Backup/Tests.antt =====
-- A node with its disk and a share, a backup of it, and the theorems at them.
use homecluster_infra.Base.{
  encode, ◌≡◌, ◌⊎◌, refl, sym, ok-injective, String, true, false, none, List, [], ◌∷◌, ◌==◌,
  string_eq, bytes_eq, find, put, if◌then◌else◌, Result, ok, err, ◌>>=◌,
}
use homecluster_infra.FeedProof.Lines.{splitlines, split_words}
use homecluster_infra.Backup.Table.{
  Names, Mount, read_mountinfo, read_all, read_line, partition_dash, path_of, unescape_mount_field,
}
use homecluster_infra.Backup.Mounts.{
  is_within, is_mount, longest, effective_mount, Expected, View, check_paths, check_mounts,
  validate_mounts,
}
use homecluster_infra.Backup.Mounts.Laws.{IsAmong, IsLongest, effective_mount-IsLongest}
use homecluster_infra.Backup.Publish.{
  Files, remove, Answers, check_before, make_partial, finish_backup, remove_partial, rename_partial,
  publish, with_partial, with_staging, backup,
}
use homecluster_infra.Backup.Publish.Laws.{
  IsPublished, KeepsPartial, backup-raised, backup-IsPublished,
}

abbrev root_mount : Mount
root_mount = record { point = []; fstype = encode "ext4"; source = encode "/dev/root" }

abbrev data_mount : Mount
data_mount = record {
  point = encode "data" ∷ [];
  fstype = encode "ext4";
  source = encode "/dev/sda1";
}

abbrev share_mount : Mount
share_mount = record {
  point = encode "mnt" ∷ encode "nas" ∷ [];
  fstype = encode "nfs4";
  source = encode "nas:/backup";
}

abbrev table : List Mount
table = root_mount ∷ data_mount ∷ share_mount ∷ []

abbrev local_text : String
local_text = "1 0 8:2 / / rw - ext4 /dev/root rw\n2 1 8:1 / /data rw - ext4 /dev/sda1 rw\n"

abbrev share_text : String
share_text =
    "1 0 8:2 / / rw - ext4 /dev/root rw\n2 1 8:1 / /data rw - ext4 /dev/sda1 rw\n3 1 0:9 / /mnt/nas rw - nfs4 nas:/backup rw\n"

-- The table as it is read.
table_read : read_mountinfo (encode share_text) ≡ ok table
unfolding read_mountinfo read_all read_line partition_dash path_of unescape_mount_field splitlines
    split_words encode ◌>>=◌
table_read = refl

abbrev names_of : String → Result Names
names_of path =
    if path == "/data"
    then ok (encode "data" ∷ [])
    else if path == "/mnt/nas"
    then ok (encode "mnt" ∷ encode "nas" ∷ [])
    else if path == "/mnt/nas/k3s"
    then ok (encode "mnt" ∷ encode "nas" ∷ encode "k3s" ∷ [])
    else err "FileNotFoundError"

abbrev expected : Expected
expected = record {
  data_dir = "/data";
  destination = "/mnt/nas/k3s";
  source_mount = "/data";
  destination_mount = "/mnt/nas";
  destination_fstype = "nfs4";
  destination_source = "nas:/backup";
  source_fstype = "ext4";
  source_mount_source = "/dev/sda1";
  require_distinct_device = true;
}

abbrev mounted : View
mounted = record {
  resolve = names_of;
  mountinfo = ok (encode share_text);
  same_device = λ a b. false;
}

-- The share is gone, and its directory is on the root's disk.
abbrev unmounted : View
unmounted = record {
  resolve = names_of;
  mountinfo = ok (encode local_text);
  same_device = λ a b. false;
}

on_share : effective_mount (encode "mnt" ∷ encode "nas" ∷ encode "k3s" ∷ []) table ≡ ok share_mount
unfolding effective_mount is_within longest encode
on_share = refl

effective_mount-IsLongest_example :
    IsAmong share_mount table
    × (is_within share_mount.point (encode "mnt" ∷ encode "nas" ∷ encode "k3s" ∷ []) ≡ true)
    × IsLongest (encode "mnt" ∷ encode "nas" ∷ encode "k3s" ∷ []) share_mount table
effective_mount-IsLongest_example =
    effective_mount-IsLongest (encode "mnt" ∷ encode "nas" ∷ encode "k3s" ∷ []) table on_share

abbrev answers : View → Answers
answers last = record {
  good_recipient = true;
  good_data_dir = true;
  good_destination = true;
  before = mounted;
  regular_files = true;
  age_found = true;
  token_before = ok (7 ∷ []);
  staging = ok tt;
  snapshot = ok (1 ∷ 2 ∷ []);
  token_after = ok (7 ∷ []);
  hashed = ok tt;
  during = mounted;
  partial_name = ok ".k3s-sqlite-1.partial";
  encrypted = (9 ∷ 9 ∷ [], ok tt);
  after = last;
  name = "k3s-sqlite-1.tar.age";
  renamed = ok tt;
  cleaned = ok tt;
  unlinked = ok tt;
}

abbrev older : Files
older = ("k3s-sqlite-0.tar.age", 5 ∷ []) ∷ []

new_partial :
    (last : View) (partial : String)
    → (answers last).partial_name ≡ ok partial
    → find partial older ≡ none
unfolding find
new_partial last partial h = rw (sym (ok-injective h)) refl

published : (backup expected (answers mounted) older).1 ≡ ok "k3s-sqlite-1.tar.age"
unfolding backup check_before make_partial with_partial with_staging finish_backup remove_partial
    rename_partial publish remove put validate_mounts check_paths check_mounts effective_mount
    is_within longest is_mount read_mountinfo read_all read_line partition_dash path_of
    unescape_mount_field splitlines split_words encode ◌>>=◌
published = refl

backup-IsPublished_example :
    ((answers mounted).name ≡ (answers mounted).name)
    × IsPublished expected (answers mounted) older (backup expected (answers mounted) older).0
backup-IsPublished_example =
    backup-IsPublished expected (answers mounted) older (new_partial mounted) published

refused :
    (backup expected (answers unmounted) older).1
    ≡ err "backup destination is not the expected mounted filesystem"
unfolding backup check_before make_partial with_partial with_staging finish_backup remove_partial
    rename_partial publish remove put validate_mounts check_paths check_mounts effective_mount
    is_within longest is_mount read_mountinfo read_all read_line partition_dash path_of
    unescape_mount_field splitlines split_words encode ◌>>=◌
refused = refl

backup-raised_example :
    ((backup expected (answers unmounted) older).0 ≡ older)
    ⊎ (KeepsPartial (answers unmounted) older (backup expected (answers unmounted) older).0
        ⊎ (IsPublished expected
              (answers unmounted)
              older
              (backup expected (answers unmounted) older).0
            × ((answers unmounted).cleaned
                ≡ err "backup destination is not the expected mounted filesystem")))
backup-raised_example =
    backup-raised expected (answers unmounted) older (new_partial unmounted) refused
