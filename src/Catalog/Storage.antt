-- ===== src/Catalog/Storage.antt =====
-- The variables of a node's storage: `_persistent_stg_storage_vars`,
-- `_build_k3s_local_storage_vars`, `_build_k3s_iscsi_session_vars` and
-- `_build_rpi5_egpu_local_llm_vars`, with the loops that copy variables by name.
pub mod Laws
pub mod Node
use homecluster_infra.Base.{
  String, ◌<>◌, Bool, true, false, ◌||◌, not, none, some, List, [], ◌∷◌, Result, ok, err,
  if◌then◌else◌,
}
use homecluster_infra.Value.{
  Value, null, bool, str, list, Fields, end, field, lookup, set, has, get, get_or, of_list, is_null,
}
use homecluster_infra.Catalog.Scalars.{as_bool, as_list, first_present}
use homecluster_infra.Catalog.Keys.{
  k3s_local_storage_bool_keys, k3s_local_storage_value_keys, k3s_iscsi_session_bool_keys,
  k3s_iscsi_session_value_keys, rpi5_egpu_local_llm_bool_keys, rpi5_egpu_local_llm_value_keys,
  rpi5_egpu_local_llm_sequence_keys, terraform_stg_group_var_keys,
}

-- `for key in keys: if key in hv: result[key] = read(hv[key])`
unfoldable pub copy_keys : (Value → Value) → List String → Fields → Fields → Fields
copy_keys read [] hv result = result
copy_keys read (key ∷ keys) hv result =
    copy_keys read keys hv
      (elim (lookup key hv) [ none ↦ result | some v ↦ set key (read v) result ])

abbrev pub as_flag : Value → Value
as_flag v = bool (as_bool v)

abbrev pub as_it_is : Value → Value
as_it_is v = v

abbrev pub as_sequence : Value → Value
as_sequence v = list (of_list (as_list v))

unfoldable pub build_terraform_stg_group_vars : Fields → Fields
unfolding copy_keys
build_terraform_stg_group_vars hv = copy_keys as_it_is terraform_stg_group_var_keys hv end

-- The settings that would erase a disk.
abbrev pub destructive_keys : List String
destructive_keys =
    "k3s_local_storage_allow_format" ∷ "k3s_local_storage_force_format"
    ∷ "k3s_local_storage_ephemeral_agent_data" ∷ []

-- The loop of `_persistent_stg_storage_vars`.
unfoldable pub persistent_loop : List String → Fields → Result Fields
persistent_loop [] result = ok result
persistent_loop (key ∷ keys) result =
    let go_on = persistent_loop keys (set key (bool false) result) in
    if as_bool (get_or key (bool false) result)
    then err ("persistent staging server cannot enable " <> key)
    else go_on

unfoldable pub persistent_stg_storage_vars : Fields → Result Fields
unfolding persistent_loop
persistent_stg_storage_vars values = persistent_loop destructive_keys values

-- The dict that the storage variables start from.
unfoldable pub k3s_local_storage_defaults : Fields → Bool → Fields
k3s_local_storage_defaults hv default_ephemeral_agent_data =
    field "k3s_local_storage_enabled"
      (as_flag (first_present (get "k3s_local_storage_enabled" hv ∷ bool false ∷ [])))
      (field "k3s_local_storage_mountpoint" (str "/var/lib/rancher/k3s") (
        field "k3s_local_storage_filesystem_type" (str "ext4") (
          field "k3s_local_storage_mount_options"
            (str "defaults,noatime,lazytime,nodiscard,errors=remount-ro")
            (field "k3s_local_storage_allow_format" (bool true) (
              field "k3s_local_storage_force_format" (bool false) (
                field "k3s_local_storage_ephemeral_agent_data"
                  (as_flag (
                    first_present (
                      get "k3s_local_storage_ephemeral_agent_data" hv
                      ∷ bool default_ephemeral_agent_data
                      ∷ [])))
                  end))))))

-- `default_sync` is `null` where the source passes `None`.
unfoldable pub with_password_sync : Fields → Value → Fields → Fields
with_password_sync hv default_sync result =
    if not (is_null default_sync) || has "k3s_local_storage_node_password_sync_enabled" hv
    then set "k3s_local_storage_node_password_sync_enabled"
        (as_flag (
          first_present
            (get "k3s_local_storage_node_password_sync_enabled" hv ∷ default_sync ∷ [])))
        result
    else result

unfoldable pub build_k3s_local_storage_vars : Fields → Bool → Value → Fields
unfolding k3s_local_storage_defaults with_password_sync copy_keys
build_k3s_local_storage_vars hv default_ephemeral_agent_data default_sync =
    copy_keys as_it_is k3s_local_storage_value_keys hv (
      copy_keys as_flag k3s_local_storage_bool_keys hv (
        with_password_sync hv default_sync
          (k3s_local_storage_defaults hv default_ephemeral_agent_data)))

unfoldable pub build_k3s_iscsi_session_vars : Fields → Fields
unfolding copy_keys
build_k3s_iscsi_session_vars hv =
    copy_keys as_it_is k3s_iscsi_session_value_keys hv
      (copy_keys as_flag k3s_iscsi_session_bool_keys hv end)

unfoldable pub build_rpi5_egpu_local_llm_vars : Fields → Fields
unfolding copy_keys
build_rpi5_egpu_local_llm_vars hv = copy_keys as_sequence rpi5_egpu_local_llm_sequence_keys hv (
    copy_keys as_it_is rpi5_egpu_local_llm_value_keys hv
      (copy_keys as_flag rpi5_egpu_local_llm_bool_keys hv end))
