-- ===== src/Backup/Mounts/Laws.antt =====
-- Which mount a path is on, and what the validation of the mounts accepts.
use homecluster_infra.Base.{
  ℕ, ◌≤◌, ◌≡◌, ◌⊎◌, inl, inr, refl, sym, ap, subst, String, Bool, true, false, ◌&&◌, ◌||◌, not,
  List, [], ◌∷◌, ◌==◌, string_eq, leb, length, keep, contains, if◌then◌else◌, ok, arith,
  bytes_beq_iff, bytes_eq, encode, All, Bool-cases, >>=-eq-ok, require-eq-ok, ok-injective, err-ok,
  not-true, first_true, second_true,
}
use homecluster_infra.Backup.Table.{Names, Mount, read_mountinfo}
use homecluster_infra.Backup.Mounts.{
  is_within, same_path, longest, longest_of, effective_mount, persistent_filesystems, Expected,
  View, is_mount, check_paths, check_mounts, validate_mounts,
}

abbrev pub IsAmong : Mount → List Mount → Type 0
IsAmong m [] = ⊥
IsAmong m (n ∷ mounts) = (n ≡ m) ⊎ IsAmong m mounts

abbrev NoLonger : Mount → Mount → Type 0
NoLonger m n = length n.point ≤ length m.point

-- The mounts on the way to the path are no longer than this one.
abbrev pub IsLongest : Names → Mount → List Mount → Type 0
IsLongest path m mounts =
    All
      (λ (n : Mount).
        (not (is_within n.point path) || leb (length n.point) (length m.point)) ≡ true)
      mounts

-- One of the mounts, and none of them is longer.
abbrev Wins : Mount → Mount → List Mount → Type 0
Wins best m mounts = ((best ≡ m) ⊎ IsAmong m mounts) × NoLonger m best × All (NoLonger m) mounts

longest-Wins : (best : Mount) (mounts : List Mount) → Wins best (longest best mounts) mounts
unfolding longest
longest-Wins best [] = (inl refl, omega arith, tt)
longest-Wins best (m ∷ mounts) = elim (Bool-cases (leb (length best.point) (length m.point))) [
  | inl e ↦
      let (from, longer, all_longer) = longest-Wins m mounts in
      subst (λ r. Wins best r (m ∷ mounts))
        (sym (ap (λ b. longest (if b then m else best) mounts) e))
        (inr from, ground (arith, e, longer), (longer, all_longer))
  | inr e ↦
      let (from, longer, all_longer) = longest-Wins best mounts in
      subst (λ r. Wins best r (m ∷ mounts))
        (sym (ap (λ b. longest (if b then m else best) mounts) e))
        (
          elim from [ inl this ↦ inl this | inr more ↦ inr (inr more) ],
          longer,
          (ground (arith, e, longer), all_longer),
        )
]

longest_of-Wins :
    (mounts : List Mount) {m : Mount}
    → longest_of mounts ≡ ok m
    → IsAmong m mounts × All (NoLonger m) mounts
longest_of-Wins [] h = absurd (err-ok h)
longest_of-Wins (n ∷ mounts) h =
    let (from, longer, all_longer) = longest-Wins n mounts in
    subst (λ r. IsAmong r (n ∷ mounts) × All (NoLonger r) (n ∷ mounts)) (ok-injective h)
      (from, (longer, all_longer))

keep-IsAmong :
    (test : Mount → Bool) (m : Mount) (mounts : List Mount)
    → IsAmong m (keep test mounts)
    → IsAmong m mounts × (test m ≡ true)
keep-IsAmong test m [] h = absurd h
keep-IsAmong test m (n ∷ mounts) h = elim (Bool-cases (test n)) [
  | inr e ↦ let (among, met) = keep-IsAmong test m mounts (rw e at h) in (inr among, met)
  | inl e ↦
      let found : (n ≡ m) ⊎ IsAmong m (keep test mounts) = rw e at h in
      elim found [
        | inl this ↦ (inl this, subst (λ x. test x ≡ true) this e)
        | inr more ↦ let (among, met) = keep-IsAmong test m mounts more in (inr among, met)
      ]
]

keep-IsLongest :
    (path : Names) (m : Mount) (mounts : List Mount)
    → All (NoLonger m) (keep (λ (n : Mount). is_within n.point path) mounts)
    → IsLongest path m mounts
keep-IsLongest path m [] h = tt
keep-IsLongest path m (n ∷ mounts) h = elim (Bool-cases (is_within n.point path)) [
  | inl e ↦
      let (longer, rest) : NoLonger m n
          × All (NoLonger m) (keep (λ (k : Mount). is_within k.point path) mounts) =
        rw e at h in
      (ground (arith, e, longer), keep-IsLongest path m mounts rest)
  | inr e ↦ (rw e refl, keep-IsLongest path m mounts (rw e at h))
]

-- The mount that is found for a path is in the table, the path is below it, and no mount of the
-- table that the path is below has more names.
pub effective_mount-IsLongest :
    (path : Names) (mounts : List Mount) {m : Mount}
    → effective_mount path mounts ≡ ok m
    → IsAmong m mounts × (is_within m.point path ≡ true) × IsLongest path m mounts
unfolding effective_mount
effective_mount-IsLongest path mounts {m} h =
    let (among, longer) = longest_of-Wins (keep (λ (n : Mount). is_within n.point path) mounts) h in
    let (listed, within) = keep-IsAmong (λ (n : Mount). is_within n.point path) m mounts among in
    (listed, within, keep-IsLongest path m mounts longer)

same_path-eq : (xs ys : Names) → same_path xs ys ≡ true → xs ≡ ys
same_path-eq [] [] h = refl
same_path-eq [] (y ∷ ys) h = cc
same_path-eq (x ∷ xs) [] h = cc
same_path-eq (x ∷ xs) (y ∷ ys) h = ground (arith, bytes_beq_iff x y, same_path-eq xs ys)

-- The destination is where the operator says, in the view: on the mount that was named, of a type that
-- lasts, and not on the root.
abbrev pub IsMounted : Expected → View → Type 0
IsMounted e v =
    (text : List ℕ) × (mounts : List Mount) × (target : Names) × (point : Names) × (m : Mount)
    × (v.mountinfo ≡ ok text)
    × (read_mountinfo text ≡ ok mounts)
    × (v.resolve e.destination ≡ ok target)
    × (v.resolve e.destination_mount ≡ ok point)
    × (effective_mount target mounts ≡ ok m)
    × (m.point ≡ point)
    × (m.fstype ≡ encode e.destination_fstype)
    × (m.source ≡ encode e.destination_source)
    × (is_within point target ≡ true)
    × (same_path point [] ≡ false)
    × (contains persistent_filesystems e.destination_fstype ≡ true)

check_paths-ok :
    (e : Expected) (source source_point target target_point : Names) {done : Unit {0}}
    → check_paths e source source_point target target_point ≡ ok done
    → (is_within target_point target ≡ true)
      × (same_path target_point [] ≡ false)
      × (contains persistent_filesystems e.destination_fstype ≡ true)
unfolding check_paths
check_paths-ok e source source_point target target_point h =
    let (_, h1) = require-eq-ok (same_path source source_point) _ _ h in
    let (within, h2) = require-eq-ok (is_within target_point target) _ _ h1 in
    let (no_root, h3) = require-eq-ok (not (same_path target_point [])) _ _ h2 in
    let (lasting, _) =
      require-eq-ok
        (contains persistent_filesystems e.source_fstype
          && contains persistent_filesystems e.destination_fstype)
        _ _ h3 in
    (
      within,
      not-true (same_path target_point []) no_root,
      second_true (contains persistent_filesystems e.source_fstype)
          (contains persistent_filesystems e.destination_fstype) lasting,
    )

is_mount-eq :
    (m : Mount) (point : Names) (fstype source : String)
    → is_mount m point fstype source ≡ true
    → (m.point ≡ point) × (m.fstype ≡ encode fstype) × (m.source ≡ encode source)
unfolding is_mount
is_mount-eq m point fstype source h =
    let of_type = m.fstype == encode fstype in
    let of_source = m.source == encode source in
    let front = first_true (same_path m.point point && of_type) of_source h in
    (
      same_path-eq m.point point (first_true (same_path m.point point) of_type front),
      (bytes_beq_iff m.fstype (encode fstype)).0
          (second_true (same_path m.point point) of_type front),
      (bytes_beq_iff m.source (encode source)).0
          (second_true (same_path m.point point && of_type) of_source h),
    )

pub validate_mounts-IsMounted :
    (e : Expected) (v : View) → validate_mounts e v ≡ ok tt → IsMounted e v
unfolding validate_mounts check_mounts
validate_mounts-IsMounted e v h =
    let (source, _, h1) = >>=-eq-ok (v.resolve e.data_dir) _ h in
    let (source_point, _, h2) = >>=-eq-ok (v.resolve e.source_mount) _ h1 in
    let (target, resolved, h3) = >>=-eq-ok (v.resolve e.destination) _ h2 in
    let (target_point, resolved_point, h4) = >>=-eq-ok (v.resolve e.destination_mount) _ h3 in
    let (_, checked, h5) = >>=-eq-ok (check_paths e source source_point target target_point) _ h4 in
    let (within, no_root, lasting) =
      check_paths-ok e source source_point target target_point checked in
    let (text, shown, h_text) = >>=-eq-ok v.mountinfo _ h5 in
    let (mounts, read, h6) = >>=-eq-ok (read_mountinfo text) _ h_text in
    let (src, _, h7) = >>=-eq-ok (effective_mount source mounts) _ h6 in
    let (dst, on, h8) = >>=-eq-ok (effective_mount target mounts) _ h7 in
    let (_, h9) =
      require-eq-ok (is_mount src source_point e.source_fstype e.source_mount_source) _ _ h8 in
    let (expected, _) =
      require-eq-ok (is_mount dst target_point e.destination_fstype e.destination_source) _ _ h9 in
    let (at_point, of_type, of_source) =
      is_mount-eq dst target_point e.destination_fstype e.destination_source expected in
    (
      text, mounts, target, target_point, dst, shown, read, resolved, resolved_point, on, at_point,
      of_type, of_source, within, no_root, lasting,
    )
