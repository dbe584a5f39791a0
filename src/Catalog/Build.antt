-- ===== src/Catalog/Build.antt =====
-- `_sorted_inventory_hosts`, `_build_generated_client` and `build_openwrt_pxe_client_catalog`: the
-- walk over the inventory, and the catalog that it returns.
pub mod Laws
use homecluster_infra.Base.{
  String, Bool, true, false, ◌||◌, ◌&&◌, not, Option, none, some, List, [], ◌∷◌, ◌++◌, map, ◌==◌,
  string_eq, strip, sort, is_empty, Result, ok, err, ◌>>=◌, ◌>>◌, if◌then◌else◌,
}
use homecluster_infra.Value.{
  Value, null, bool, int, str, list, dict, to_list, Fields, end, field, lookup, set, get, keys,
  text, truth, is_null, is_mapping,
}
use homecluster_infra.Catalog.Merge.{merge_nested_mapping, mapping_legacy_mismatches}
use homecluster_infra.Catalog.Scalars.{as_bool, as_list, clean_string, first_present}
use homecluster_infra.Catalog.Legacy.{non_shadowed_legacy, legacy_mismatches}
use homecluster_infra.Catalog.NodeVars.{mapping_or_empty, or_text}
use homecluster_infra.Catalog.Client.{
  client_sections, Sections, mapping_value, option_value_for_client, generated_pxe_host,
  generated_pxe_boot, generated_overlay_client,
}
use homecluster_infra.Catalog.Roles.{generated_role_client_vars}

unfoldable pub sorted_inventory_hosts : Fields → Fields → List String
sorted_inventory_hosts groups hostvars = elim (get "all" groups) [
  | list hosts ↦ sort (map text (to_list hosts))
  | _ ↦ sort (keys hostvars)
]

-- The defaults that every client shares.
pub record Defaults : Type 0 where
  pub option_code : Value
  pub default_filename : Value
  pub default_serveraddress : Value
  pub default_servername : Value
  pub default_force : Value

pub record Client : Type 0 where
  pub pxe_host : Fields
  pub pxe_boot : Option Fields
  pub overlay_client : Option Fields
  pub group_vars : Fields
  pub client_vars : List Fields

-- `role`, or the first of the roles.
abbrev role_of : Value → List Value → Value
role_of null (first ∷ rest) = first
role_of role roles = role

unfoldable pub build_generated_client : String → Fields → Fields → Defaults → Result Client
build_generated_client hostname hv cfg d = do
  let sections = client_sections cfg
  let name = or_text (clean_string (mapping_value cfg sections.pxe_host_cfg "name")) hostname
  let networkid = or_text (clean_string (mapping_value cfg sections.pxe_host_cfg "networkid")) name
  let roles = as_list (get "roles" cfg)
  let role = role_of (mapping_value cfg sections.overlay_cfg "role") roles
  let overlay_id = clean_string (
      first_present
        (get "id" sections.overlay_cfg ∷ get "overlay_id" cfg ∷ get "id" cfg ∷ str name ∷ []))
  let option_value = option_value_for_client cfg sections.overlay_cfg overlay_id role
  let pxe_host =
      generated_pxe_host cfg sections.pxe_host_cfg hv name networkid option_value d.option_code
        d.default_filename d.default_force
  let pxe_boot =
      generated_pxe_boot cfg sections.boot_cfg pxe_host name networkid d.default_filename
        d.default_serveraddress d.default_servername
  let overlay_client =
      generated_overlay_client cfg sections.overlay_cfg overlay_id role option_value
  vars ← generated_role_client_vars hostname hv cfg roles overlay_id
  ok (record {
    pxe_host = pxe_host;
    pxe_boot = pxe_boot;
    overlay_client = overlay_client;
    group_vars = vars.0;
    client_vars = vars.1;
  })

-- What the walk over the hosts has gathered.
pub record Generated : Type 0 where
  pub pxe_hosts : List Fields
  pub pxe_boots : List Fields
  pub overlay : List Fields
  pub group_vars : Fields
  pub conflicts : List Value
  pub client_vars : List Fields

abbrev pub nothing_generated : Generated
nothing_generated = record {
  pxe_hosts = [];
  pxe_boots = [];
  overlay = [];
  group_vars = end;
  conflicts = [];
  client_vars = [];
}

abbrev pub one_or_none : Option Fields → List Fields
one_or_none none = []
one_or_none (some d) = d ∷ []

unfoldable pub add_client : Generated → Client → Generated
add_client g c =
    let merged = merge_nested_mapping g.group_vars c.group_vars in
    record {
      pxe_hosts = g.pxe_hosts ++ c.pxe_host ∷ [];
      pxe_boots = g.pxe_boots ++ one_or_none c.pxe_boot;
      overlay = g.overlay ++ one_or_none c.overlay_client;
      group_vars = merged.0;
      conflicts = g.conflicts ++ merged.1;
      client_vars = g.client_vars ++ c.client_vars;
    }

-- The settings of a host that this router serves: `none` where the loop says `continue`.
unfoldable pub served : Fields → String → String → Option (Fields × Fields)
served hostvars router_name hostname = elim (get hostname hostvars) [
  | dict hv ↦ elim (get "openwrt_pxe_client" hv) [
    | dict cfg ↦
        let router = get "router" cfg in
        let target_router = strip (if truth router then text router else router_name) in
        if not (as_bool (get "enabled" cfg)) || not (target_router == router_name)
        then none
        else some (hv, cfg)
    | _ ↦ none
  ]
  | _ ↦ none
]

-- The loop over the hosts.
unfoldable pub walk : Fields → String → Defaults → List String → Generated → Result Generated
walk hostvars router_name d [] g = ok g
walk hostvars router_name d (hostname ∷ hosts) g = elim (served hostvars router_name hostname) [
  | none ↦ walk hostvars router_name d hosts g
  | some (hv, cfg) ↦ build_generated_client hostname hv cfg d >>= λ client.
      walk hostvars router_name d hosts (add_client g client)
]

-- `[item for item in _as_list(value) if isinstance(item, Mapping)]`
unfoldable pub mapping_items : List Value → List Fields
mapping_items [] = []
mapping_items (dict d ∷ rest) = d ∷ mapping_items rest
mapping_items (v ∷ rest) = mapping_items rest

-- `[str(field) for field in _as_list(fields)]`, or the default if that is empty.
unfoldable pub compare_fields : Value → List String → List String
compare_fields fields default_fields =
    let given = map text (as_list fields) in if is_empty given then default_fields else given

abbrev pub host_keys : List String
host_keys = "name" ∷ "networkid" ∷ "mac" ∷ []

abbrev pub boot_keys : List String
boot_keys = "name" ∷ "networkid" ∷ []

abbrev pub overlay_keys : List String
overlay_keys = "id" ∷ []

overlay_default_fields : List String
overlay_default_fields = "id" ∷ "role" ∷ "option_value" ∷ "ansible_extra_vars" ∷ []

host_default_fields : List String
host_default_fields =
    "name" ∷ "mac" ∷ "ip" ∷ "networkid" ∷ "filename" ∷ "force" ∷ "tags" ∷ "dhcp_options"
    ∷ "board_hash" ∷ "tftp_stage" ∷ "tftp_release" ∷ "rootfs_release" ∷ "cmdline_extra_args"
    ∷ "rpi_kernel_image" ∷ "rpi_initramfs" ∷ "rpi_device_tree" ∷ "rpi4_kernel_image"
    ∷ "rpi4_initramfs" ∷ "rpi4_device_tree" ∷ "rpi5_kernel_image" ∷ "rpi5_initramfs"
    ∷ "rpi5_device_tree" ∷ "rpi5_extra_config" ∷ "rpi5_pciex1_enabled" ∷ []

boot_default_fields : List String
boot_default_fields = "name" ∷ "networkid" ∷ "filename" ∷ "serveraddress" ∷ "servername" ∷ []

-- The arguments of the filter beside the inventory.
pub record Arguments : Type 0 where
  pub legacy_pxe_hosts : Value
  pub legacy_pxe_boots : Value
  pub legacy_overlay_clients : Value
  pub enabled : Value
  pub compare_overlay_fields : Value
  pub compare_pxe_host_fields : Value
  pub compare_pxe_boot_fields : Value
  pub defaults : Defaults
  pub static_dhcp_hosts : Value
  pub legacy_group_vars : Value

-- The dict that the filter returns; `generated` holds its entries of that prefix.
pub record Catalog : Type 0 where
  pub pxe_hosts : List Fields
  pub dhcp_hosts : List Fields
  pub pxe_boots : List Fields
  pub overlay_clients : List Fields
  pub group_vars : Fields
  pub generated : Generated
  pub pxe_host_mismatches : List Value
  pub pxe_boot_mismatches : List Value
  pub overlay_mismatches : List Value
  pub group_var_mismatches : List Value
  pub conflicts : List Value

-- What is computed once the inventory has been walked.
unfoldable pub assemble : Arguments → Generated → Catalog
unfolding overlay_default_fields host_default_fields boot_default_fields
assemble a g =
    let legacy_hosts = mapping_items (as_list a.legacy_pxe_hosts) in
    let legacy_boots = mapping_items (as_list a.legacy_pxe_boots) in
    let legacy_overlay = mapping_items (as_list a.legacy_overlay_clients) in
    let legacy_vars = mapping_or_empty a.legacy_group_vars in
    let pxe_hosts = non_shadowed_legacy legacy_hosts g.pxe_hosts host_keys ++ g.pxe_hosts in
    let merged = merge_nested_mapping legacy_vars g.group_vars in
    record {
      pxe_hosts = pxe_hosts;
      dhcp_hosts = mapping_items (as_list a.static_dhcp_hosts) ++ pxe_hosts;
      pxe_boots = non_shadowed_legacy legacy_boots g.pxe_boots boot_keys ++ g.pxe_boots;
      overlay_clients = non_shadowed_legacy legacy_overlay g.overlay overlay_keys ++ g.overlay;
      group_vars = merged.0;
      generated = g;
      pxe_host_mismatches =
          legacy_mismatches legacy_hosts g.pxe_hosts
            (compare_fields a.compare_pxe_host_fields host_default_fields) host_keys;
      pxe_boot_mismatches =
          legacy_mismatches legacy_boots g.pxe_boots
            (compare_fields a.compare_pxe_boot_fields boot_default_fields) boot_keys;
      overlay_mismatches =
          legacy_mismatches legacy_overlay g.overlay
            (compare_fields a.compare_overlay_fields overlay_default_fields) overlay_keys;
      group_var_mismatches = mapping_legacy_mismatches legacy_vars g.group_vars;
      conflicts = g.conflicts ++ merged.1;
    }

unfoldable pub build_openwrt_pxe_client_catalog :
    Fields → Fields → String → Arguments → Result Catalog
build_openwrt_pxe_client_catalog hostvars groups router_name a = do
  generated ←
      (if as_bool a.enabled
        then walk hostvars router_name a.defaults (sorted_inventory_hosts groups hostvars)
            nothing_generated
        else ok nothing_generated)
  ok (assemble a generated)
