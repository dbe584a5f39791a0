-- ===== src/Catalog/Roles/Hardened.antt =====
-- A client with the role of the persistent staging server never gets a destructive disk setting.
use homecluster_infra.Base.{
  String, ◌≡◌, true, false, some, List, [], ◌∷◌, ◌==◌, string_eq, ok, contains, All, >>=-eq-ok,
  ok-injective, ◌∙◌, subst, arith, eq_iff, if◌then◌else◌, Bool-cases, inl, inr,
}
use homecluster_infra.Value.{
  bool, dict, Fields, end, lookup, set, get, get_or, lookup-set, lookup-set_self,
}
use homecluster_infra.Catalog.NodeVars.{mapping_or_empty}
use homecluster_infra.Catalog.Storage.{destructive_keys, persistent_stg_storage_vars}
use homecluster_infra.Catalog.Storage.Laws.{lookup-persistent_stg_storage_vars}
use homecluster_infra.Catalog.Roles.{
  harden, harden_role, hardened_roles, role_vars, built_role_vars, add_extra_vars,
  check_host_tailscale,
}

-- The role has variables, and each of the three destructive settings is set to `False` in them.
abbrev pub IsHardened : Fields → String → Type 0
IsHardened vars role =
    (d : Fields) × (lookup role vars ≡ some (dict d))
    × All (λ key. lookup key d ≡ some (bool false)) destructive_keys

module _ (role_names : List String) (role : String) (named : contains role_names role ≡ true) where
  harden_role-IsHardened :
      (vars : Fields) {next : Fields}
      → harden_role role_names role vars ≡ ok next
      → IsHardened next role
  unfolding harden_role
  harden_role-IsHardened vars h =
      let (d, accepted, e) =
        >>=-eq-ok (persistent_stg_storage_vars (mapping_or_empty (get_or role (dict end) vars)))
          (λ d. ok (set role (dict d) vars)) (rw named at h) in
      (
        d,
        ground (arith, lookup-set_self role (dict d) vars),
        (
          lookup-persistent_stg_storage_vars _ "k3s_local_storage_allow_format" accepted,
          (
            lookup-persistent_stg_storage_vars _ "k3s_local_storage_force_format" accepted,
            (
              lookup-persistent_stg_storage_vars _ "k3s_local_storage_ephemeral_agent_data"
                  accepted,
              tt,
            ),
          ),
        ),
      )

pub lookup-harden_role :
    (role_names : List String) (role k : String) (vars : Fields) {next : Fields}
    → harden_role role_names role vars ≡ ok next
    → (role == k) ≡ false
    → lookup k next ≡ lookup k vars
unfolding harden_role
lookup-harden_role role_names role k vars h other = elim (Bool-cases (contains role_names role)) [
  | inl named ↦
      let (d, accepted, e) =
        >>=-eq-ok (persistent_stg_storage_vars (mapping_or_empty (get_or role (dict end) vars)))
          (λ d. ok (set role (dict d) vars)) (rw named at h) in
      ground (arith, lookup-set k role (dict d) vars)
  | inr unnamed ↦ ground arith
]

module _ (role_names : List String) (role : String) (named : contains role_names role ≡ true) where
  -- A hardened role stays hardened in the rounds for the other roles.
  harden_role-keeps :
      (other : String) (vars : Fields) {next : Fields}
      → harden_role role_names other vars ≡ ok next
      → IsHardened vars role
      → IsHardened next role
  harden_role-keeps other vars {next} h (d, at_role, off) = elim (Bool-cases (other == role)) [
    | inl same ↦
        harden_role-IsHardened role_names role named vars
          (subst (λ r. harden_role role_names r vars ≡ ok next) ((eq_iff other role).0 same) h)
    | inr apart ↦ (d, lookup-harden_role role_names other role vars h apart ∙ at_role, off)
  ]

  harden-keeps :
      (roles : List String) (vars : Fields) {out : Fields}
      → harden roles role_names vars ≡ ok out
      → IsHardened vars role
      → IsHardened out role
  unfolding harden
  harden-keeps [] vars h k = subst (λ d. IsHardened d role) (ground arith) k
  harden-keeps (r ∷ roles) vars h k =
      let (next, first, rest) =
        >>=-eq-ok (harden_role role_names r vars) (λ next. harden roles role_names next) h in
      harden-keeps roles next rest (harden_role-keeps r vars first k)

  pub harden-IsHardened :
      (roles : List String) (vars : Fields) {out : Fields}
      → contains roles role ≡ true
      → harden roles role_names vars ≡ ok out
      → IsHardened out role
  unfolding harden
  harden-IsHardened [] vars listed h = cc
  harden-IsHardened (r ∷ roles) vars listed h =
      let (next, first, rest) =
        >>=-eq-ok (harden_role role_names r vars) (λ next. harden roles role_names next) h in
      elim (Bool-cases (r == role)) [
        | inl same ↦ harden-keeps roles next rest (
            harden_role-IsHardened role_names role named vars
              (subst (λ r. harden_role role_names r vars ≡ ok next) ((eq_iff r role).0 same) first))
        | inr apart ↦ harden-IsHardened roles next (rw apart at listed) rest
      ]

-- The steps that `role_vars` went through.
pub role_vars-steps :
    (hostname : String) (hv cfg : Fields) (role_names : List String) (overlay_id : String)
    {vars : Fields}
    → role_vars hostname hv cfg role_names overlay_id ≡ ok vars
    → let pull = mapping_or_empty (get "ansible_pull" cfg) in
      (stg_storage_hv built extended : Fields) × (built_role_vars hostname hv stg_storage_hv cfg
          role_names overlay_id pull
        ≡ ok built)
      × (add_extra_vars (mapping_or_empty (get "extra_vars" pull)) built ≡ ok extended)
      × ((if contains role_names "k3s_stg_server"
            then harden hardened_roles role_names extended
            else ok extended)
          ≡ ok vars)
      × (check_host_tailscale vars ≡ ok tt)
unfolding role_vars
role_vars-steps hostname hv cfg role_names overlay_id {vars} h =
    let (stg, e, h1) = >>=-eq-ok _ _ h in
    let (built, e1, h2) = >>=-eq-ok _ _ h1 in
    let (extended, e2, h3) = >>=-eq-ok _ _ h2 in
    let (hardened, e3, h4) = >>=-eq-ok _ _ h3 in
    let (checked, e4, h5) = >>=-eq-ok _ _ h4 in
    (
      stg,
      built,
      extended,
      e1,
      e2,
      e3 ∙ h5,
      subst (λ d. check_host_tailscale d ≡ ok tt) (ok-injective h5) e4,
    )

-- A client with the role of the persistent staging server whose variables are built has the three
-- destructive disk settings off in the server's variables, and in those of the storage role if the
-- client has that too, whatever the inventory and the explicit variables say.
pub role_vars-IsHardened :
    (hostname : String) (hv cfg : Fields) (role_names : List String) (overlay_id role : String)
    {vars : Fields}
    → role_vars hostname hv cfg role_names overlay_id ≡ ok vars
    → contains role_names "k3s_stg_server" ≡ true
    → contains hardened_roles role ≡ true
    → contains role_names role ≡ true
    → IsHardened vars role
role_vars-IsHardened hostname hv cfg role_names overlay_id role h server listed named =
    let (stg, built, extended, e1, e2, e3, e4) =
      role_vars-steps hostname hv cfg role_names overlay_id h in
    harden-IsHardened role_names role named hardened_roles extended listed (rw server at e3)
