-- ===== src/Catalog/NodeVars.antt =====
-- The variables of the k3s roles: `_build_base_vars`, `_build_k3s_stg_agent_vars` and
-- `_build_k3s_stg_server_vars`.
use homecluster_infra.Base.{
  String, true, false, ◌||◌, ◌&&◌, not, none, some, List, [], ◌∷◌, ◌==◌, string_eq, Result, ok, err,
  require, ◌>>=◌, ◌>>◌, if◌then◌else◌,
}
use homecluster_infra.Value.{
  Value, null, bool, str, list, dict, Items, nil, cons, Fields, end, field, lookup, set, get,
  get_or, update, of_texts, truth, is_mapping,
}
use homecluster_infra.Catalog.Scalars.{as_bool, as_list, clean_string, first_present, append_all}
use homecluster_infra.Catalog.Storage.{
  as_flag, build_k3s_local_storage_vars, build_k3s_iscsi_session_vars,
  build_rpi5_egpu_local_llm_vars,
}

-- `cfg = value; if not isinstance(cfg, Mapping): cfg = {}`
abbrev pub mapping_or_empty : Value → Fields
mapping_or_empty (dict d) = d
mapping_or_empty _ = end

-- `a or b` of texts.
abbrev pub or_text : String → String → String
or_text a b = if a == "" then b else a

unfoldable pub build_base_vars : Fields → Fields → Fields
build_base_vars hv cfg =
    let ansible_pull_cfg = mapping_or_empty (get "ansible_pull" cfg) in
    let distcc_cfg = get "distcc" hv in
    if not (as_bool (get_or "distcc_vars_enabled" (bool true) ansible_pull_cfg))
    then end
    else if not (is_mapping distcc_cfg)
        || not (as_bool (get "enabled" (mapping_or_empty distcc_cfg)))
    then end
    else let result = field "distcc" distcc_cfg end in
      elim (lookup "distcc_default_allow" hv) [
        | none ↦ result
        | some allow ↦ set "distcc_default_allow" allow result
      ]

unfoldable pub node_ip_of : Fields → Fields → String
node_ip_of hv cfg =
    clean_string (first_present (get "k3s_node_ip" hv ∷ get "ansible_host" hv ∷ get "ip" cfg ∷ []))

unfoldable pub agent_snapshotter : Fields → String
agent_snapshotter hv = or_text (clean_string (get "k3s_agent_snapshotter" hv)) "native"

-- The two checks of the snapshotter.
unfoldable pub check_snapshotter : Fields → String → Result (Unit {0})
check_snapshotter hv snapshotter = do
  require (snapshotter == "native" || snapshotter == "overlayfs")
      "k3s_agent_snapshotter must be native or overlayfs"
  require
      (not (
        snapshotter == "overlayfs"
        && (not (as_bool (get "k3s_local_storage_enabled" hv))
            || not (clean_string (get "k3s_local_storage_filesystem_type" hv) == "ext4"))))
      "k3s_agent_snapshotter=overlayfs requires dedicated ext4 k3s local storage"

unfoldable pub agent_labels : Fields → Fields → List String
agent_labels hv k3s_agent_cfg =
    let labels =
      append_all (append_all [] (as_list (get "node-label" k3s_agent_cfg)))
        (as_list (get "k3s_agent_extra_node_labels" hv)) in
    elim labels [ [] ↦ "example.com/k3s-workload=true" ∷ [] | label ∷ rest ↦ label ∷ rest ]

unfoldable pub k3s_agent_of : String → Fields → Fields → String → String → Fields → Fields
k3s_agent_of hostname hv cfg overlay_id snapshotter k3s_agent_cfg =
    let agent : Fields = field "node-ip" (str (node_ip_of hv cfg)) (
      field "node-name" (str (or_text overlay_id hostname)) (
        field "node-label" (list (of_texts (agent_labels hv k3s_agent_cfg))) (
          field "snapshotter" (str snapshotter)
            (field "data-dir" (str "/var/lib/rancher/k3s") end)))) in
    elim (lookup "kubelet-arg" k3s_agent_cfg) [
      | none ↦ agent
      | some args ↦ set "kubelet-arg" args agent
    ]

-- `if "k3s_start_on_boot" in hv: ...`
unfoldable pub with_start_on_boot : Fields → Fields → Fields
with_start_on_boot hv result = elim (lookup "k3s_start_on_boot" hv) [
  | none ↦ result
  | some v ↦ set "k3s_start_on_boot" (as_flag v) result
]

unfoldable pub build_k3s_stg_agent_vars : String → Fields → Fields → String → Result Fields
build_k3s_stg_agent_vars hostname hv cfg overlay_id = do
  let k3s_agent_cfg = mapping_or_empty (get "k3s_agent" hv)
  let snapshotter = agent_snapshotter hv
  check_snapshotter hv snapshotter
  let result : Fields =
      field "k3s_agent" (dict (k3s_agent_of hostname hv cfg overlay_id snapshotter k3s_agent_cfg)) (
        field "k3s_build_cluster" (bool true) (
          field "k3s_control_node" (bool false) (
            field "k3s_primary_control_node" (bool false) (
              field "k3s_control_delegate" (str "k3s_stg_server")
                (field "k3s_controller_list" (list (cons (str "k3s_stg_server") nil)) end)))))
  let with_storage =
      update (with_start_on_boot hv result) (build_k3s_local_storage_vars hv true null)
  let with_session = update with_storage (build_k3s_iscsi_session_vars hv)
  ok (update with_session (build_rpi5_egpu_local_llm_vars hv))

-- `list(value)`, which raises a `TypeError` on what cannot be iterated.
key_items : Fields → Items
key_items end = nil
key_items (field k v d) = cons (str k) (key_items d)

unfoldable pub py_list : Value → Result Items
unfolding key_items
py_list (list xs) = ok xs
py_list (dict d) = ok (key_items d)
py_list _ = err "TypeError: object is not iterable"

-- `[node_taints] if isinstance(node_taints, str) else list(node_taints)`
abbrev taint_items : Value → Result Items
taint_items (str s) = ok (cons (str s) nil)
taint_items v = py_list v

unfoldable pub with_taints : Fields → Fields → Result Fields
unfolding py_list
with_taints hv server =
    let node_taints = get "k3s_server_node_taints" hv in
    if truth node_taints
    then (do items ← taint_items node_taints; ok (set "node-taint" (list items) server))
    else ok server

-- `[item for item in items if item]`
non_empty : List String → List String
non_empty [] = []
non_empty (s ∷ rest) = let more = non_empty rest in if s == "" then more else s ∷ more

unfoldable pub k3s_server_of : String → Fields → Fields → String → String → Fields
unfolding non_empty
k3s_server_of hostname hv cfg overlay_id kubeconfig_mode =
    let node_ip = node_ip_of hv cfg in
    let node_name = or_text overlay_id hostname in
    field "disable" (list (of_texts ("traefik" ∷ "servicelb" ∷ []))) (
      field "node-ip" (str node_ip) (
        field "node-name" (str node_name) (
          field "node-external-ip" (list (if node_ip == "" then nil else cons (str node_ip) nil)) (
            field "tls-san" (list (of_texts (non_empty (node_ip ∷ node_name ∷ [])))) (
              field "snapshotter" (str "native") (
                field "data-dir" (str "/var/lib/rancher/k3s")
                  (field "write-kubeconfig-mode" (str kubeconfig_mode) end)))))))

unfoldable pub build_k3s_stg_server_vars :
    String → Fields → Fields → String → String → Result Fields
build_k3s_stg_server_vars hostname hv cfg overlay_id kubeconfig_mode = do
  server ← with_taints hv (k3s_server_of hostname hv cfg overlay_id kubeconfig_mode)
  let result = with_start_on_boot hv (field "k3s_server" (dict server) end)
  let with_storage = update result (build_k3s_local_storage_vars hv false (bool false))
  ok (update with_storage (build_k3s_iscsi_session_vars hv))
