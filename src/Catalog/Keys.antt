-- ===== src/Catalog/Keys.antt =====
-- The tuples of variable names that the catalog filter copies.
use homecluster_infra.Base.{String, List, [], ◌∷◌}

unfoldable pub terraform_stg_group_var_keys : List String
terraform_stg_group_var_keys =
    "k3s_observability_apply_package_atom" ∷ "k3s_observability_apply_package_accept_keywords"
    ∷ "k3s_observability_apply_package_licenses" ∷ "k3s_observability_apply_state_mount_src"
    ∷ "k3s_observability_apply_state_mount_path" ∷ "k3s_observability_apply_state_mount_fstype"
    ∷ "k3s_observability_apply_state_mount_opts" ∷ "k3s_observability_apply_stage_name"
    ∷ "k3s_observability_apply_infra_bundle_name" ∷ "k3s_observability_apply_site_input_bundle_name"
    ∷ "k3s_observability_apply_run_root" ∷ "k3s_observability_apply_work_root"
    ∷ "k3s_observability_apply_service_name" ∷ "k3s_observability_apply_kubeconfig_path"
    ∷ "k3s_observability_apply_k3s_data_dir" ∷ "k3s_observability_apply_lock_timeout"
    ∷ "k3s_observability_apply_parallelism" ∷ "k3s_observability_apply_wait_timeout_secs"
    ∷ "k3s_observability_apply_retry_secs" ∷ "k3s_observability_apply_post_ready_settle_secs"
    ∷ "k3s_observability_apply_metallb_crd_wait_timeout_secs"
    ∷ "k3s_observability_apply_metallb_ready_wait_timeout_secs"
    ∷ "k3s_observability_apply_cert_manager_ready_wait_timeout_secs"
    ∷ "k3s_observability_apply_after_units" ∷ []

unfoldable pub k3s_local_storage_bool_keys : List String
k3s_local_storage_bool_keys =
    "k3s_local_storage_enabled" ∷ "k3s_local_storage_allow_format"
    ∷ "k3s_local_storage_force_format" ∷ "k3s_local_storage_ephemeral_agent_data"
    ∷ "k3s_local_storage_wipe_signatures" ∷ "k3s_local_storage_require_partition"
    ∷ "k3s_local_storage_killall_on_mount_change" ∷ "k3s_local_storage_scrub_containerd_on_boot"
    ∷ "k3s_local_storage_node_password_sync_enabled"
    ∷ "k3s_local_storage_reset_identity_when_local_password_missing" ∷ []

unfoldable pub k3s_local_storage_value_keys : List String
k3s_local_storage_value_keys =
    "k3s_local_storage_device" ∷ "k3s_local_storage_mountpoint"
    ∷ "k3s_local_storage_filesystem_type" ∷ "k3s_local_storage_label"
    ∷ "k3s_local_storage_mount_options" ∷ "k3s_local_storage_killall_script_path"
    ∷ "k3s_local_storage_scrub_containerd_confirm"
    ∷ "k3s_local_storage_scrub_containerd_required_confirm" ∷ "k3s_local_storage_containerd_dir"
    ∷ "k3s_local_storage_node_password_sync_service_name"
    ∷ "k3s_local_storage_node_password_sync_script_path"
    ∷ "k3s_local_storage_node_password_sync_dropin_name" ∷ "k3s_local_storage_state_dir"
    ∷ "k3s_local_storage_node_password_state_path" ∷ "k3s_local_storage_server_ca_hash_state_path"
    ∷ "k3s_local_storage_cluster_token_path" ∷ []

unfoldable pub k3s_iscsi_session_bool_keys : List String
k3s_iscsi_session_bool_keys = "k3s_iscsi_session_enabled" ∷ "k3s_iscsi_session_login_enabled" ∷ []

unfoldable pub k3s_iscsi_session_value_keys : List String
k3s_iscsi_session_value_keys =
    "k3s_iscsi_session_portal" ∷ "k3s_iscsi_session_target_iqn" ∷ "k3s_iscsi_session_initiator_iqn"
    ∷ "k3s_iscsi_session_device_path" ∷ "k3s_iscsi_session_node_startup"
    ∷ "k3s_iscsi_session_open_iscsi_package" ∷ "k3s_iscsi_session_discovery_timeout"
    ∷ "k3s_iscsi_session_udev_settle_timeout" ∷ []

unfoldable pub rpi5_egpu_local_llm_bool_keys : List String
rpi5_egpu_local_llm_bool_keys =
    "rpi5_egpu_local_llm_enabled" ∷ "rpi5_egpu_local_swap_enabled" ∷ "rpi5_egpu_llama_enabled"
    ∷ "rpi5_egpu_llama_disable_webui" ∷ "rpi5_egpu_llama_models_storage_enabled"
    ∷ "rpi5_egpu_llama_models_storage_allow_empty_dir_replace" ∷ "rpi5_egpu_llama_build_enabled"
    ∷ "rpi5_egpu_llama_validate_runtime" ∷ []

unfoldable pub rpi5_egpu_local_llm_value_keys : List String
rpi5_egpu_local_llm_value_keys =
    "rpi5_egpu_local_swap_path" ∷ "rpi5_egpu_local_swap_size" ∷ "rpi5_egpu_local_swap_size_bytes"
    ∷ "rpi5_egpu_local_swap_priority" ∷ "rpi5_egpu_local_swap_swappiness"
    ∷ "rpi5_egpu_local_swap_mountpoint" ∷ "rpi5_egpu_local_swap_mount_fstype"
    ∷ "rpi5_egpu_local_swap_mount_source" ∷ "rpi5_egpu_local_swap_service_name"
    ∷ "rpi5_egpu_llama_user" ∷ "rpi5_egpu_llama_group" ∷ "rpi5_egpu_llama_home"
    ∷ "rpi5_egpu_llama_models_dir" ∷ "rpi5_egpu_llama_model_path" ∷ "rpi5_egpu_llama_source_dir"
    ∷ "rpi5_egpu_llama_build_dir" ∷ "rpi5_egpu_llama_build_jobs" ∷ "rpi5_egpu_llama_service_name"
    ∷ "rpi5_egpu_llama_bind_host" ∷ "rpi5_egpu_llama_port" ∷ "rpi5_egpu_llama_context_size"
    ∷ "rpi5_egpu_llama_gpu_layers" ∷ "rpi5_egpu_llama_condition_host"
    ∷ "rpi5_egpu_llama_models_storage_dir" ∷ "rpi5_egpu_llama_models_storage_mountpoint"
    ∷ "rpi5_egpu_llama_models_storage_fstype" ∷ "rpi5_egpu_llama_models_storage_mount_source"
    ∷ "rpi5_egpu_llama_health_retries" ∷ "rpi5_egpu_llama_health_delay" ∷ []

unfoldable pub rpi5_egpu_local_llm_sequence_keys : List String
rpi5_egpu_local_llm_sequence_keys = "rpi5_egpu_llama_extra_args" ∷ []
