-- ===== src/Catalog/Roles/Tailscale.antt =====
-- A host that joins the tailnet: what its storage roles may not do to its disk, and that only three
-- public settings reach its tailscale role.
use homecluster_infra.Base.{
  String, ◌≡◌, refl, ◌⊎◌, Bool, true, false, ◌||◌, not, some, List, [], ◌∷◌, ◌==◌, string_eq, ok,
  contains, >>=-eq-ok, require-eq-ok, ok-injective, ◌∙◌, subst, arith, eq_iff, if◌then◌else◌,
  Bool-cases, inl, inr,
}
use homecluster_infra.Value.{
  Value, str, dict, Fields, end, field, lookup, set, has, get, get_or, lookup-set_self, truth,
  value_eq, is_mapping,
}
use homecluster_infra.Catalog.Merge.{merge_nested_mapping}
use homecluster_infra.Catalog.Scalars.{clean_string}
use homecluster_infra.Catalog.NodeVars.{mapping_or_empty}
use homecluster_infra.Catalog.Roles.{
  harden, harden_role, hardened_roles, role_vars, built_role_vars, add_extra_vars,
  add_host_tailscale, host_tailscale_entry, check_host_tailscale, check_storage_role, flag,
}
use homecluster_infra.Catalog.Roles.Hardened.{role_vars-steps, lookup-harden_role}
use homecluster_infra.Catalog.Roles.Branches.{
  lookup-unless_set, lookup-add_base, lookup-add_picoclaw, lookup-add_stg_server,
  lookup-add_stg_agent, lookup-add_stg_storage, lookup-add_prd_server, lookup-add_prd_storage,
  tailscale,
}

-- The explicit variables cannot name the role: that is an error.
lookup-add_extra_vars :
    (extra d : Fields) {next : Fields}
    → add_extra_vars extra d ≡ ok next
    → lookup tailscale next ≡ lookup tailscale d
unfolding add_extra_vars
lookup-add_extra_vars end d h = ground arith
lookup-add_extra_vars (field role_name role_vars rest) d h =
    let name = clean_string (str role_name) in
    let merged =
      merge_nested_mapping (mapping_or_empty (get_or name (dict end) d))
        (mapping_or_empty role_vars) in
    elim (Bool-cases (name == tailscale)) [
      | inl refused ↦ absurd (ground arith)
      | inr apart ↦
          lookup-add_extra_vars rest
            (if name == "" || not (is_mapping role_vars) then d else set name (dict merged.0) d)
            (rw apart at h)
          ∙ lookup-unless_set tailscale name apart d (name == "" || not (is_mapping role_vars)) _
    ]

lookup-harden :
    (roles role_names : List String) (d : Fields) {next : Fields}
    → contains roles tailscale ≡ false
    → harden roles role_names d ≡ ok next
    → lookup tailscale next ≡ lookup tailscale d
unfolding harden
lookup-harden [] role_names d other h = ground arith
lookup-harden (r ∷ roles) role_names d other h =
    let (next, first, rest) =
      >>=-eq-ok (harden_role role_names r d) (λ next. harden roles role_names next) h in
    lookup-harden roles role_names next (ground arith) rest
    ∙ lookup-harden_role role_names r tailscale d first (ground arith)

lookup-hardened :
    (role_names : List String) (d : Fields) (test : Bool) {next : Fields}
    → (if test then harden hardened_roles role_names d else ok d) ≡ ok next
    → lookup tailscale next ≡ lookup tailscale d
lookup-hardened role_names d true h = lookup-harden hardened_roles role_names d refl h
lookup-hardened role_names d false h = ground arith

lookup-built_role_vars :
    (hostname : String) (hv stg cfg : Fields) (role_names : List String) (overlay_id : String)
    (pull : Fields) {vars : Fields}
    → built_role_vars hostname hv stg cfg role_names overlay_id pull ≡ ok vars
    → (first : Fields) × (add_host_tailscale hv end ≡ ok first)
      × (lookup tailscale vars ≡ lookup tailscale first)
unfolding built_role_vars
lookup-built_role_vars hostname hv stg cfg role_names overlay_id pull h =
    let (first, e1, h1) = >>=-eq-ok _ _ h in
    let (server, e2, h2) = >>=-eq-ok _ _ h1 in
    let (agent, e3, h3) = >>=-eq-ok _ _ h2 in
    let (prd, e4, h4) = >>=-eq-ok _ _ h3 in
    (
      first,
      e1,
      subst (λ r. lookup tailscale r ≡ lookup tailscale first) (ok-injective h4)
          (lookup-add_prd_storage prd hv role_names
            ∙ lookup-add_prd_server _ hostname hv cfg role_names overlay_id e4
            ∙ lookup-add_stg_storage agent hv stg role_names pull
            ∙ lookup-add_stg_agent server hostname hv cfg role_names overlay_id pull e3
            ∙ lookup-add_stg_server _ hostname stg cfg role_names overlay_id pull e2
            ∙ lookup-add_picoclaw _ hv role_names
            ∙ lookup-add_base first hv cfg role_names),
    )

add_host_tailscale-entry :
    (hv : Fields) {first : Fields}
    → add_host_tailscale hv end ≡ ok first
    → flag "host_tailscale_enabled" hv ≡ true
    → lookup tailscale first ≡ some (dict (host_tailscale_entry hv))
unfolding add_host_tailscale
add_host_tailscale-entry hv {first} h on =
    let (_, e) = require-eq-ok _ _ _ (rw on at h) in
    subst (λ r. lookup tailscale r ≡ some (dict (host_tailscale_entry hv))) (ok-injective e)
      (lookup-set_self tailscale (dict (host_tailscale_entry hv)) end)

pub role_vars-host_tailscale :
    (hostname : String) (hv cfg : Fields) (role_names : List String) (overlay_id : String)
    {vars : Fields}
    → role_vars hostname hv cfg role_names overlay_id ≡ ok vars
    → flag "host_tailscale_enabled" hv ≡ true
    → lookup "host_tailscale" vars ≡ some (dict (host_tailscale_entry hv))
role_vars-host_tailscale hostname hv cfg role_names overlay_id {vars} h on =
    let (stg, built, extended, e1, e2, e3, e4) =
      role_vars-steps hostname hv cfg role_names overlay_id h in
    let (first, added, same) =
      lookup-built_role_vars hostname hv stg cfg role_names overlay_id _ e1 in
    lookup-hardened role_names extended (contains role_names "k3s_stg_server") e3
    ∙ lookup-add_extra_vars _ built e2
    ∙ same
    ∙ add_host_tailscale-entry hv added on

empty_or_true : (d : Fields) → (d ≡ end) ⊎ (truth (dict d) ≡ true)
unfolding truth
empty_or_true end = inl refl
empty_or_true (field k v d) = inr refl

-- What the checks establish of the variables of a storage role: force-format is off, the
-- agent data is not ephemeral, and if there are variables at all they name the given disk.
abbrev pub IsKept : Fields → String → Value → Type 0
IsKept vars storage_role device =
    let storage_vars = mapping_or_empty (get_or storage_role (dict end) vars) in
    (flag "k3s_local_storage_force_format" storage_vars ≡ false)
    × (flag "k3s_local_storage_ephemeral_agent_data" storage_vars ≡ false)
    × ((storage_vars ≡ end)
        ⊎ (value_eq (get_or "k3s_local_storage_device" (str "") storage_vars) device ≡ true))

abbrev device_of : Fields → Value
device_of vars = get "host_tailscale_storage_device" (mapping_or_empty (get tailscale vars))

check_storage_role-IsKept :
    (vars : Fields) (storage_role : String)
    → check_storage_role vars storage_role ≡ ok tt
    → IsKept vars storage_role (device_of vars)
unfolding check_storage_role
check_storage_role-IsKept vars storage_role h =
    let storage_vars = mapping_or_empty (get_or storage_role (dict end) vars) in
    let (safe, e) = require-eq-ok _ _ _ h in
    (
      ground arith,
      ground arith,
      elim (empty_or_true storage_vars) [
        | inl nothing ↦ inl nothing
        | inr something ↦ inr (ground arith)
      ],
    )

abbrev pub storage_roles : List String
storage_roles = "k3s_stg_storage" ∷ "k3s_prd_storage" ∷ []

check_host_tailscale-IsKept :
    (vars : Fields) (storage_role : String)
    → check_host_tailscale vars ≡ ok tt
    → has tailscale vars ≡ true
    → contains storage_roles storage_role ≡ true
    → IsKept vars storage_role (device_of vars)
unfolding check_host_tailscale
check_host_tailscale-IsKept vars storage_role h joined listed =
    let (_, stg, prd) = >>=-eq-ok _ _ (rw joined at h) in
    elim (Bool-cases ("k3s_stg_storage" == storage_role)) [
      | inl same ↦
          subst (λ r. IsKept vars r (device_of vars))
            ((eq_iff "k3s_stg_storage" storage_role).0 same)
            (check_storage_role-IsKept vars "k3s_stg_storage" stg)
      | inr other ↦
          subst (λ r. IsKept vars r (device_of vars))
            ((eq_iff "k3s_prd_storage" storage_role).0 (ground arith))
            (check_storage_role-IsKept vars "k3s_prd_storage" prd)
    ]

device_of-entry :
    (hv vars : Fields)
    → lookup tailscale vars ≡ some (dict (host_tailscale_entry hv))
    → (has tailscale vars ≡ true) × (device_of vars ≡ get_or "k3s_local_storage_device" (str "") hv)
unfolding has get lookup
device_of-entry hv vars h = (ground arith, ground arith)

-- A host that enables tailscale and whose variables are built has in no storage role of the client,
-- explicit variables included, force-format on or the agent data ephemeral, and each such role that
-- has variables names the disk that the inventory gives.
pub role_vars-IsKept :
    (hostname : String) (hv cfg : Fields) (role_names : List String)
    (overlay_id storage_role : String) {vars : Fields}
    → role_vars hostname hv cfg role_names overlay_id ≡ ok vars
    → flag "host_tailscale_enabled" hv ≡ true
    → contains storage_roles storage_role ≡ true
    → IsKept vars storage_role (get_or "k3s_local_storage_device" (str "") hv)
role_vars-IsKept hostname hv cfg role_names overlay_id storage_role {vars} h on listed =
    let (stg, built, extended, e1, e2, e3, checked) =
      role_vars-steps hostname hv cfg role_names overlay_id h in
    let (joined, device) =
      device_of-entry hv vars
        (role_vars-host_tailscale hostname hv cfg role_names overlay_id h on) in
    subst (λ v. IsKept vars storage_role v) device
      (check_host_tailscale-IsKept vars storage_role checked joined listed)
