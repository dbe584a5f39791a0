-- ===== src/Catalog/Tests.antt =====
-- The catalog at a small inventory, and the theorems at inputs that meet their hypotheses.
use homecluster_infra.Base.{
  String, ◌≡◌, refl, true, none, some, List, [], ◌∷◌, Result, ok, err, ◌>>=◌, contains, All, strip,
  join, ◌&&◌, lower_is, is_ok, not, ◌||◌, ◌++◌, ◌≢◌, if◌then◌else◌,
}
use homecluster_infra.Value.{
  Value, null, bool, str, list, dict, nil, cons, Fields, end, field, lookup, has, get, get_or, set,
  update, keys, truth, value_eq, size,
}
use homecluster_infra.Catalog.Keys.{
  k3s_local_storage_bool_keys, k3s_local_storage_value_keys, k3s_iscsi_session_bool_keys,
  k3s_iscsi_session_value_keys,
}
use homecluster_infra.Catalog.Merge.{merge}
use homecluster_infra.Catalog.Merge.Laws.{at, base_kept}
use homecluster_infra.Catalog.Merge.Overlay.{Found, overlay-Found}
use homecluster_infra.Catalog.Scalars.{
  as_bool, as_list, clean_string, clean_strings, append_all, first_present,
}
use homecluster_infra.Catalog.Scalars.Laws.{
  as_list-join, AreUnique, IsClean, append_all-AreUnique, contains-append_all,
}
use homecluster_infra.Catalog.Legacy.{
  normalise_client, item_key, generated_keys, non_shadowed_legacy, legacy_by_key, differing_fields,
  item_mismatches, legacy_mismatches,
}
use homecluster_infra.Catalog.Legacy.Laws.{
  find_item, find-non_shadowed_legacy, legacy_mismatches_none,
}
use homecluster_infra.Catalog.Build.{
  Arguments, Catalog, build_openwrt_pxe_client_catalog, mapping_items,
}
use homecluster_infra.Catalog.Build.Laws.{switched_off}
use homecluster_infra.Catalog.Storage.Laws.{flag, is_ok-persistent_stg_storage_vars}
use homecluster_infra.Catalog.Storage.{
  build_k3s_local_storage_vars, persistent_stg_storage_vars, build_k3s_iscsi_session_vars,
}
use homecluster_infra.Catalog.Storage.Node.{nothing_else_copied}
use homecluster_infra.Catalog.NodeVars.{
  mapping_or_empty, build_base_vars, build_k3s_stg_server_vars, with_taints, k3s_server_of,
  node_ip_of, with_start_on_boot,
}
use homecluster_infra.Catalog.Roles.{
  role_vars, built_role_vars, add_host_tailscale, add_base, add_picoclaw, add_stg_server,
  add_stg_agent, add_stg_storage, add_prd_server, add_prd_storage, add_extra_vars, harden,
  check_host_tailscale,
}
use homecluster_infra.Catalog.Roles.Hardened.{IsHardened, role_vars-IsHardened}
use homecluster_infra.Catalog.Roles.Tailscale.{IsKept, role_vars-IsKept}

abbrev labels : Fields
labels = field "zone" (str "a") (field "rack" (dict (field "row" (str "1") end)) end)

abbrev overlay : Fields
overlay = field "rack" (dict (field "slot" (str "7") end)) end

base_kept_example : at ("rack" ∷ "row" ∷ []) (dict (merge labels overlay []).0) ≡ some (str "1")
base_kept_example =
    base_kept labels overlay [] ("rack" ∷ "row" ∷ []) (str "1") refl (unfold lookup in refl)

overlay-Found_example : Found ("rack" ∷ "slot" ∷ []) (dict (merge labels overlay []).0) (str "7")
overlay-Found_example =
    overlay-Found (str "7") refl labels overlay [] ("rack" ∷ "slot" ∷ []) (unfold lookup in refl)
      (unfold merge lookup set in refl)

append_all-AreUnique_example :
    AreUnique (append_all [] (str " a" ∷ str "a " ∷ []))
    × All IsClean (append_all [] (str " a" ∷ str "a " ∷ []))
append_all-AreUnique_example = append_all-AreUnique [] (str " a" ∷ str "a " ∷ []) tt tt

abbrev storage_hv : Fields
storage_hv =
    field "k3s_local_storage_enabled" (str "yes")
      (field "k3s_local_storage_device" (str "/dev/sda1") (field "secret" (str "x") end))

abbrev server_hv : Fields
server_hv = field "ansible_host" (str "192.0.2.10") (
    field "k3s_local_storage_enabled" (bool true)
      (field "k3s_local_storage_device" (str "/dev/sda1") end))

abbrev server_names : List String
server_names = "base" ∷ "k3s_stg_server" ∷ "k3s_stg_storage" ∷ []

abbrev server_cfg : Fields
server_cfg =
    field "ansible_pull"
      (dict (
        field "extra_vars" (dict (field "k3s_stg_storage" (dict (field "note" (str "x") end)) end))
          end))
      end

vars_or_end : Result Fields → Fields
vars_or_end (ok vars) = vars
vars_or_end (err e) = end

-- `role_vars` of one node, with all that it calls open.
run : Fields → Fields → List String → Result Fields
unfolding role_vars built_role_vars ◌>>=◌ add_host_tailscale add_base add_picoclaw add_stg_server
    add_stg_agent add_stg_storage add_prd_server add_prd_storage add_extra_vars harden
    check_host_tailscale persistent_stg_storage_vars get get_or has set update as_bool first_present
    build_base_vars build_k3s_stg_server_vars with_taints k3s_server_of node_ip_of
    with_start_on_boot build_k3s_local_storage_vars build_k3s_iscsi_session_vars merge clean_string
    truth k3s_local_storage_bool_keys k3s_local_storage_value_keys k3s_iscsi_session_bool_keys
    k3s_iscsi_session_value_keys strip lower_is
run hv cfg names = role_vars "node1" hv cfg names "node1"

server_vars : Fields
unfolding run vars_or_end
server_vars = vars_or_end (run server_hv server_cfg server_names)

server_built : role_vars "node1" server_hv server_cfg server_names "node1" ≡ ok server_vars
unfolding server_vars
server_built = refl

role_vars-IsHardened_example : IsHardened server_vars "k3s_stg_storage"
role_vars-IsHardened_example =
    role_vars-IsHardened "node1" server_hv server_cfg server_names "node1" "k3s_stg_storage"
      server_built refl refl refl

abbrev tailnet_hv : Fields
tailnet_hv = field "host_tailscale_enabled" (str "on") server_hv

abbrev tailnet_names : List String
tailnet_names = "k3s_prd_storage" ∷ []

tailnet_vars : Fields
unfolding run vars_or_end
tailnet_vars = vars_or_end (run tailnet_hv end tailnet_names)

tailnet_built : role_vars "node1" tailnet_hv end tailnet_names "node1" ≡ ok tailnet_vars
unfolding tailnet_vars value_eq
tailnet_built = refl

role_vars-IsKept_example :
    IsKept tailnet_vars "k3s_prd_storage" (get_or "k3s_local_storage_device" (str "") tailnet_hv)
role_vars-IsKept_example =
    role_vars-IsKept "node1" tailnet_hv end tailnet_names "node1" "k3s_prd_storage" tailnet_built
      (unfold as_bool get_or strip lower_is in refl) refl

-- A persistent server that asks for a format is refused.
refused :
    run (field "k3s_local_storage_force_format" (str "true") server_hv) end server_names
    ≡ err "persistent staging server cannot enable k3s_local_storage_force_format"
unfolding run
refused = refl

is_ok-persistent_stg_storage_vars_example : is_ok (persistent_stg_storage_vars storage_hv) ≡ (
    not (flag "k3s_local_storage_allow_format" storage_hv)
    && not (flag "k3s_local_storage_force_format" storage_hv)
    && not (flag "k3s_local_storage_ephemeral_agent_data" storage_hv))
is_ok-persistent_stg_storage_vars_example = is_ok-persistent_stg_storage_vars storage_hv

nothing_else_copied_example :
    lookup "secret" (
      update
        (build_k3s_local_storage_vars storage_hv true null)
        (build_k3s_iscsi_session_vars storage_hv))
    ≡ none
nothing_else_copied_example =
    nothing_else_copied storage_hv true null "secret" (unfold k3s_local_storage_bool_keys in refl)
      (unfold k3s_local_storage_value_keys in refl) (unfold k3s_iscsi_session_bool_keys in refl)
      (unfold k3s_iscsi_session_value_keys in refl)

contains-append_all_example :
    contains (append_all ("x" ∷ []) (str " a" ∷ [])) "a"
    ≡ (contains ("x" ∷ []) "a" || contains (clean_strings (str " a" ∷ [])) "a")
contains-append_all_example = contains-append_all ("x" ∷ []) (str " a" ∷ []) "a"

as_list-join_example :
    as_list (str (join "," (" a" ∷ "b" ∷ []))) ≡ str (strip " a") ∷ str (strip "b") ∷ []
as_list-join_example =
    as_list-join (" a" ∷ "b" ∷ []) (refl, (refl, tt)) (unfold strip in (refl, (refl, tt)))

abbrev entry_a : Fields
entry_a = field "name" (str "a") (field "mac" (str "01") end)

abbrev entry_b : Fields
entry_b = field "name" (str "b") (field "mac" (str "02") end)

abbrev key_a : String
key_a = "a"

a_named : key_a ≢ ""
a_named h = cc

find-non_shadowed_legacy_example :
    find_item
      ("name" ∷ [])
      (non_shadowed_legacy (entry_a ∷ entry_b ∷ []) (entry_b ∷ []) ("name" ∷ []) ++ entry_b ∷ [])
      "a"
    ≡ (if contains (generated_keys (entry_b ∷ []) ("name" ∷ [])) "a"
        then find_item ("name" ∷ []) (entry_b ∷ []) "a"
        else find_item ("name" ∷ []) (entry_a ∷ entry_b ∷ []) "a")
find-non_shadowed_legacy_example =
    find-non_shadowed_legacy ("name" ∷ []) (entry_a ∷ entry_b ∷ []) (entry_b ∷ []) "a" a_named

agree : legacy_mismatches (entry_b ∷ entry_a ∷ []) (entry_a ∷ []) ("mac" ∷ []) ("name" ∷ []) ≡ []
unfolding legacy_mismatches item_mismatches legacy_by_key differing_fields normalise_client item_key
    lookup set value_eq clean_string first_present strip get has keys size
agree = refl

found_legacy :
    legacy_by_key (entry_b ∷ entry_a ∷ []) ("name" ∷ []) (item_key entry_a ("name" ∷ []))
    ≡ some entry_a
unfolding legacy_by_key item_key clean_string strip get lookup
found_legacy = refl

legacy_mismatches_none_example :
    (w : Value) × (lookup "mac" entry_a ≡ some w) × (value_eq (str "01") w ≡ true)
legacy_mismatches_none_example =
    legacy_mismatches_none (entry_b ∷ entry_a ∷ []) [] [] entry_a entry_a ("mac" ∷ []) ("name" ∷ [])
      "mac" (str "01") agree found_legacy refl (unfold lookup in refl)

abbrev off_arguments : Arguments
off_arguments = record {
  legacy_pxe_hosts = list (cons (dict entry_a) nil);
  legacy_pxe_boots = null;
  legacy_overlay_clients = null;
  enabled = str "no";
  compare_overlay_fields = null;
  compare_pxe_host_fields = null;
  compare_pxe_boot_fields = null;
  defaults = record {
    option_code = null;
    default_filename = null;
    default_serveraddress = null;
    default_servername = null;
    default_force = null;
  };
  static_dhcp_hosts = null;
  legacy_group_vars = null;
}

switched_off_example :
    (c : Catalog) × (build_openwrt_pxe_client_catalog
        (field "a" (dict end) end)
        end
        "router"
        off_arguments
      ≡ ok c)
    × (c.pxe_hosts ≡ mapping_items (as_list (list (cons (dict entry_a) nil))))
    × (c.pxe_boots ≡ mapping_items (as_list null))
    × (c.overlay_clients ≡ mapping_items (as_list null))
    × (c.group_vars ≡ mapping_or_empty null)
    × (c.conflicts ≡ [])
    × (c.pxe_host_mismatches ≡ [])
    × (c.pxe_boot_mismatches ≡ [])
    × (c.overlay_mismatches ≡ [])
switched_off_example =
    switched_off (field "a" (dict end) end) end "router" off_arguments
      (unfold as_bool strip lower_is in refl)
