-- ===== src/Catalog/Roles.antt =====
-- `_generated_role_client_vars`: the variables that each role of a client gets.
pub mod Hardened
pub mod Branches
pub mod Tailscale
use homecluster_infra.Base.{
  String, Bool, true, false, ◌||◌, ◌&&◌, not, Option, none, some, List, [], ◌∷◌, ◌==◌, string_eq,
  contains, sort, Result, ok, err, require, ◌>>=◌, ◌>>◌, if◌then◌else◌,
}
use homecluster_infra.Value.{
  Value, null, bool, int, pos, str, list, dict, Fields, end, field, lookup, set, has, get, get_or,
  update, keys, truth, value_eq, is_mapping,
}
use homecluster_infra.Catalog.Merge.{merge_nested_mapping}
use homecluster_infra.Catalog.Scalars.{as_bool, clean_string, clean_strings}
use homecluster_infra.Catalog.Storage.{
  persistent_stg_storage_vars, build_terraform_stg_group_vars, build_k3s_local_storage_vars,
  build_k3s_iscsi_session_vars,
}
use homecluster_infra.Catalog.NodeVars.{
  mapping_or_empty, build_base_vars, build_k3s_stg_agent_vars, build_k3s_stg_server_vars,
}

abbrev pub flag : String → Fields → Bool
flag key d = as_bool (get_or key (bool false) d)

abbrev enabled_in : String → Fields → Bool
enabled_in key ansible_pull_cfg = as_bool (get_or key (bool true) ansible_pull_cfg)

-- `ansible_pull_cfg.get("group_vars")` with the Terraform variables of the client merged in.
unfoldable pub client_group_vars : Fields → List String → Fields → Fields
client_group_vars hv role_names ansible_pull_cfg =
    let group_vars = mapping_or_empty (get "group_vars" ansible_pull_cfg) in
    let generated = build_terraform_stg_group_vars hv in
    let explicit = mapping_or_empty (get "role_terraform_stg" group_vars) in
    if contains role_names "terraform_stg"
      && enabled_in "terraform_stg_group_vars_enabled" ansible_pull_cfg
      && truth (dict generated)
    then set "role_terraform_stg" (dict (merge_nested_mapping generated explicit).0) group_vars
    else group_vars

-- The variables of the host's own tailscale role: three public settings and no key.
abbrev pub host_tailscale_entry : Fields → Fields
host_tailscale_entry hv = field "host_tailscale_enabled" (bool true) (
    field "host_tailscale_hostname" (get_or "host_tailscale_hostname" (str "") hv)
      (field "host_tailscale_storage_device" (get_or "k3s_local_storage_device" (str "") hv) end))

unfoldable pub add_host_tailscale : Fields → Fields → Result Fields
add_host_tailscale hv role_extra_vars =
    if flag "host_tailscale_enabled" hv
    then (do
      require
          (flag "k3s_local_storage_enabled" hv
            && not (
                flag "k3s_local_storage_force_format" hv
                || flag "k3s_local_storage_ephemeral_agent_data" hv))
          "host Tailscale requires persistent node storage"
      ok (set "host_tailscale" (dict (host_tailscale_entry hv)) role_extra_vars))
    else ok role_extra_vars

unfoldable pub add_base : Fields → Fields → List String → Fields → Fields
add_base hv cfg role_names role_extra_vars =
    let base_vars = build_base_vars hv cfg in
    if contains role_names "base" && truth (dict base_vars)
    then set "base" (dict base_vars) role_extra_vars
    else role_extra_vars

unfoldable pub add_picoclaw : Fields → List String → Fields → Fields
add_picoclaw hv role_names role_extra_vars =
    let picoclaw_cfg = get "picoclaw" hv in
    let current = mapping_or_empty (get_or "base" (dict end) role_extra_vars) in
    if contains role_names "base" && is_mapping picoclaw_cfg && truth picoclaw_cfg
    then set "base" (dict (merge_nested_mapping current (field "picoclaw" picoclaw_cfg end)).0)
        role_extra_vars
    else role_extra_vars

unfoldable pub add_stg_server :
    String → Fields → Fields → List String → String → Fields → Fields → Result Fields
add_stg_server hostname stg_storage_hv cfg role_names overlay_id ansible_pull_cfg role_extra_vars =
    if contains role_names "k3s_stg_server"
      && enabled_in "k3s_stg_server_vars_enabled" ansible_pull_cfg
    then (do
      vars ← build_k3s_stg_server_vars hostname stg_storage_hv cfg overlay_id "0600"
      ok (set "k3s_stg_server" (dict vars) role_extra_vars))
    else ok role_extra_vars

unfoldable pub add_stg_agent :
    String → Fields → Fields → List String → String → Fields → Fields → Result Fields
add_stg_agent hostname hv cfg role_names overlay_id ansible_pull_cfg role_extra_vars =
    if contains role_names "k3s_stg_agent"
      && enabled_in "k3s_stg_agent_vars_enabled" ansible_pull_cfg
    then (do
      vars ← build_k3s_stg_agent_vars hostname hv cfg overlay_id
      ok (set "k3s_stg_agent" (dict vars) role_extra_vars))
    else ok role_extra_vars

unfoldable pub add_stg_storage : Fields → Fields → List String → Fields → Fields → Fields
add_stg_storage hv stg_storage_hv role_names ansible_pull_cfg role_extra_vars =
    let default_sync = if contains role_names "k3s_stg_server" then bool false else null in
    let vars = build_k3s_local_storage_vars stg_storage_hv false default_sync in
    if contains role_names "k3s_stg_storage"
      && enabled_in "k3s_stg_storage_vars_enabled" ansible_pull_cfg
    then set "k3s_stg_storage" (dict (update vars (build_k3s_iscsi_session_vars hv)))
        role_extra_vars
    else role_extra_vars

-- What `_generated_role_client_vars` adds to the server variables of a production node.
abbrev prd_overrides : Fields → Fields
prd_overrides hv = field "k3s_build_cluster" (bool false) (
    field "k3s_control_node" (bool true) (
      field "k3s_flannel_backend" (get_or "k3s_flannel_backend" (str "vxlan") hv)
        (field "k3s_flannel_mtu" (get_or "k3s_flannel_mtu" (int (pos 1400)) hv) end)))

unfoldable pub add_prd_server :
    String → Fields → Fields → List String → String → Fields → Result Fields
add_prd_server hostname hv cfg role_names overlay_id role_extra_vars =
    let release = get "k3s_release_version" hv in
    if contains role_names "k3s_prd_server"
    then (do
      vars ← build_k3s_stg_server_vars hostname hv cfg overlay_id "0644"
      let server = update vars (prd_overrides hv)
      let pinned = if truth release then set "k3s_release_version" release server else server
      ok (set "k3s_prd_server" (dict pinned) role_extra_vars))
    else ok role_extra_vars

unfoldable pub add_prd_storage : Fields → List String → Fields → Fields
add_prd_storage hv role_names role_extra_vars =
    let vars = build_k3s_local_storage_vars hv false (bool false) in
    if contains role_names "k3s_prd_storage"
    then set "k3s_prd_storage" (dict (update vars (build_k3s_iscsi_session_vars hv)))
        role_extra_vars
    else role_extra_vars

-- The loop over `extra_vars_cfg.items()`.
unfoldable pub add_extra_vars : Fields → Fields → Result Fields
add_extra_vars end role_extra_vars = ok role_extra_vars
add_extra_vars (field role_name role_vars rest) role_extra_vars =
    let name = clean_string (str role_name) in
    let current = mapping_or_empty (get_or name (dict end) role_extra_vars) in
    let merged = (merge_nested_mapping current (mapping_or_empty role_vars)).0 in
    let go_on = add_extra_vars rest (
      if name == "" || not (is_mapping role_vars)
      then role_extra_vars
      else set name (dict merged) role_extra_vars) in
    if name == "host_tailscale"
    then err "host Tailscale boot configuration must use allow-listed host variables"
    else go_on

-- One round of the loop that keeps a persistent server away from destructive settings.
unfoldable pub harden_role : List String → String → Fields → Result Fields
harden_role role_names role_name role_extra_vars =
    if contains role_names role_name
    then (do
      vars ←
          persistent_stg_storage_vars
            (mapping_or_empty (get_or role_name (dict end) role_extra_vars))
      ok (set role_name (dict vars) role_extra_vars))
    else ok role_extra_vars

unfoldable pub harden : List String → List String → Fields → Result Fields
unfolding harden_role
harden [] role_names role_extra_vars = ok role_extra_vars
harden (role_name ∷ rest) role_names role_extra_vars =
    harden_role role_names role_name role_extra_vars >>= λ next. harden rest role_names next

-- One storage role under the host's tailscale checks.
unfoldable pub check_storage_role : Fields → String → Result (Unit {0})
check_storage_role role_extra_vars storage_role = do
  let storage_vars = mapping_or_empty (get_or storage_role (dict end) role_extra_vars)
  let device =
      get "host_tailscale_storage_device" (mapping_or_empty (get "host_tailscale" role_extra_vars))
  require
      (not (
        flag "k3s_local_storage_force_format" storage_vars
        || flag "k3s_local_storage_ephemeral_agent_data" storage_vars))
      "host Tailscale cannot use destructive storage overrides"
  require
      (not (
        truth (dict storage_vars)
        && not (value_eq (get_or "k3s_local_storage_device" (str "") storage_vars) device)))
      "host Tailscale device must match the effective storage role"

unfoldable pub check_host_tailscale : Fields → Result (Unit {0})
unfolding check_storage_role
check_host_tailscale role_extra_vars =
    if has "host_tailscale" role_extra_vars
    then (do
      check_storage_role role_extra_vars "k3s_stg_storage"
      check_storage_role role_extra_vars "k3s_prd_storage")
    else ok tt

-- One entry of `ansible_pull_client_vars` for each role, by name.
unfoldable pub client_vars : String → List String → Fields → List Fields
client_vars overlay_id [] role_extra_vars = []
client_vars overlay_id (role_name ∷ rest) role_extra_vars =
    field "overlay_id" (str overlay_id)
      (field "role" (str role_name) (field "vars" (get role_name role_extra_vars) end))
    ∷ client_vars overlay_id rest role_extra_vars

abbrev pub hardened_roles : List String
hardened_roles = "k3s_stg_storage" ∷ "k3s_stg_server" ∷ []

-- `role_extra_vars` as the branches for the client's roles leave it, before the explicit variables.
unfoldable pub built_role_vars :
    String → Fields → Fields → Fields → List String → String → Fields → Result Fields
built_role_vars hostname hv stg_storage_hv cfg role_names overlay_id ansible_pull_cfg = do
  with_tailscale ← add_host_tailscale hv end
  let with_base = add_picoclaw hv role_names (add_base hv cfg role_names with_tailscale)
  with_server ←
      add_stg_server hostname stg_storage_hv cfg role_names overlay_id ansible_pull_cfg with_base
  with_agent ← add_stg_agent hostname hv cfg role_names overlay_id ansible_pull_cfg with_server
  let with_storage = add_stg_storage hv stg_storage_hv role_names ansible_pull_cfg with_agent
  with_prd ← add_prd_server hostname hv cfg role_names overlay_id with_storage
  ok (add_prd_storage hv role_names with_prd)

-- The last value of `role_extra_vars`, with the checks that it passed.
unfoldable pub role_vars : String → Fields → Fields → List String → String → Result Fields
role_vars hostname hv cfg role_names overlay_id = do
  let ansible_pull_cfg = mapping_or_empty (get "ansible_pull" cfg)
  let persistent = contains role_names "k3s_stg_server"
  stg_storage_hv ← (if persistent then persistent_stg_storage_vars hv else ok hv)
  built ← built_role_vars hostname hv stg_storage_hv cfg role_names overlay_id ansible_pull_cfg
  extended ← add_extra_vars (mapping_or_empty (get "extra_vars" ansible_pull_cfg)) built
  hardened ← (if persistent then harden hardened_roles role_names extended else ok extended)
  check_host_tailscale hardened
  ok hardened

unfoldable pub generated_role_client_vars :
    String → Fields → Fields → List Value → String → Result (Fields × List Fields)
unfolding client_vars
generated_role_client_vars hostname hv cfg roles overlay_id = do
  let role_names = clean_strings roles
  let group_vars = client_group_vars hv role_names (mapping_or_empty (get "ansible_pull" cfg))
  vars ← role_vars hostname hv cfg role_names overlay_id
  ok (group_vars, client_vars overlay_id (sort (keys vars)) vars)
