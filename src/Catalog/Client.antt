-- ===== src/Catalog/Client.antt =====
-- The entries of one client: `_option_value_for_client`, `_mapping_value`, `_client_sections`,
-- `_generated_pxe_host`, `_generated_pxe_boot` and `_generated_overlay_client`.
use homecluster_infra.Base.{
  String, ◌<>◌, Bool, true, ◌||◌, ◌&&◌, not, Option, none, some, List, [], ◌∷◌, ◌++◌, ◌==◌,
  string_eq, join, is_empty, if◌then◌else◌,
}
use homecluster_infra.Value.{
  Value, bool, str, list, dict, Fields, end, field, set, get, get_or, of_texts, is_null,
}
use homecluster_infra.Catalog.Scalars.{as_bool, as_list, clean_string, clean_strings, first_present}
use homecluster_infra.Catalog.NodeVars.{mapping_or_empty, or_text}

-- `parts.append(f"{name}={text}")` if the text is not empty.
abbrev option_part : String → String → List String
option_part name text = if text == "" then [] else (name <> ("=" <> text)) ∷ []

unfoldable pub option_value_for_client : Fields → Fields → String → Value → String
option_value_for_client cfg overlay_cfg overlay_id role =
    let option_value =
      first_present (get "option_value" overlay_cfg ∷ get "option_value" cfg ∷ []) in
    let roles = as_list (first_present (get "roles" cfg ∷ get "roles" overlay_cfg ∷ [])) in
    let stage = clean_string (first_present (get "stage" cfg ∷ get "tftp_stage" cfg ∷ [])) in
    if not (is_null option_value) && not (clean_string option_value == "")
    then clean_string option_value
    else join "," (
        (("overlay_id=" <> overlay_id) ∷ [])
        ++ (option_part "role" (clean_string role)
            ++ (option_part "roles" (join "," (clean_strings roles)) ++ option_part "stage" stage)))

unfoldable pub mapping_value : Fields → Fields → String → Value
mapping_value cfg nested_cfg key = first_present (get key nested_cfg ∷ get key cfg ∷ [])

-- One section of `_client_sections`, which has two names.
unfoldable pub client_section : Fields → String → String → Fields
client_section cfg name other_name =
    mapping_or_empty (first_present (get name cfg ∷ get other_name cfg ∷ dict end ∷ []))

pub record Sections : Type 0 where
  pub pxe_host_cfg : Fields
  pub boot_cfg : Fields
  pub overlay_cfg : Fields

unfoldable pub client_sections : Fields → Sections
client_sections cfg = record {
  pxe_host_cfg = client_section cfg "pxe_host" "host";
  boot_cfg = client_section cfg "pxe_boot" "boot";
  overlay_cfg = client_section cfg "overlay" "overlay_client";
}

-- The names that `_generated_pxe_host` reads from the client's settings without a fallback, in the
-- order of `host_field_candidates`.
abbrev plain_names : List String
plain_names =
    "tftp_release" ∷ "rootfs_release" ∷ "cmdline_root_arg" ∷ "cmdline_ip" ∷ "cmdline_extra_args"
    ∷ "rpi_kernel_image" ∷ "rpi_initramfs" ∷ "rpi_device_tree" ∷ "rpi4_kernel_image"
    ∷ "rpi4_initramfs" ∷ "rpi4_device_tree" ∷ "rpi5_kernel_image" ∷ "rpi5_initramfs"
    ∷ "rpi5_device_tree" ∷ "rpi5_extra_config" ∷ "rpi5_pciex1_enabled" ∷ []

candidates : Fields → Fields → List String → List (String × Value)
candidates cfg pxe_host_cfg [] = []
candidates cfg pxe_host_cfg (name ∷ names) =
    (name, mapping_value cfg pxe_host_cfg name) ∷ candidates cfg pxe_host_cfg names

unfoldable pub host_field_candidates :
    Fields → Fields → Fields → Value → Value → List (String × Value)
unfolding candidates
host_field_candidates cfg pxe_host_cfg hv default_filename default_force =
    ("mac", mapping_value cfg pxe_host_cfg "mac")
    ∷ ("ip", first_present (mapping_value cfg pxe_host_cfg "ip" ∷ get "ansible_host" hv ∷ []))
    ∷ (
      "filename",
      first_present (
          mapping_value cfg pxe_host_cfg "filename"
          ∷ mapping_value cfg pxe_host_cfg "bootfile"
          ∷ default_filename
          ∷ []),
    )
    ∷ ("force", first_present (mapping_value cfg pxe_host_cfg "force" ∷ default_force ∷ []))
    ∷ ("board_hash", mapping_value cfg pxe_host_cfg "board_hash")
    ∷ (
      "tftp_stage",
      first_present (mapping_value cfg pxe_host_cfg "tftp_stage" ∷ get "stage" cfg ∷ []),
    )
    ∷ candidates cfg pxe_host_cfg plain_names

abbrev present : Value → Bool
present v = not (is_null v) && not (clean_string v == "")

-- `if value is not None and _clean_string(value): pxe_host[key] = value`, for each candidate.
unfoldable pub set_present : List (String × Value) → Fields → Fields
set_present [] pxe_host = pxe_host
set_present ((key, value) ∷ rest) pxe_host =
    set_present rest (if present value then set key value pxe_host else pxe_host)

-- `if texts: pxe_host[key] = texts`
unfoldable pub set_texts : String → List String → Fields → Fields
set_texts key texts d = if is_empty texts then d else set key (list (of_texts texts)) d

unfoldable pub host_tags : Fields → Fields → Fields → List String
host_tags cfg pxe_host_cfg pxe_host =
    let tags = mapping_value cfg pxe_host_cfg "tags" in
    let tag = clean_string (first_present (get "stage" cfg ∷ get "tftp_stage" pxe_host ∷ [])) in
    if is_null tags
    then clean_strings (if tag == "" then [] else str tag ∷ [])
    else clean_strings (as_list tags)

unfoldable pub host_dhcp_options : Fields → Fields → String → Value → List String
host_dhcp_options cfg pxe_host_cfg option_value option_code =
    let dhcp_options = mapping_value cfg pxe_host_cfg "dhcp_options" in
    if is_null dhcp_options && not (option_value == "")
    then clean_strings (str (clean_string option_code <> (",\"" <> (option_value <> "\""))) ∷ [])
    else clean_strings (as_list dhcp_options)

unfoldable pub generated_pxe_host :
    Fields → Fields → Fields → String → String → String → Value → Value → Value → Fields
generated_pxe_host cfg pxe_host_cfg hv name networkid option_value option_code default_filename
      default_force =
    let pxe_host =
      set_present (host_field_candidates cfg pxe_host_cfg hv default_filename default_force)
        (field "name" (str name) (field "networkid" (str networkid) end)) in
    let with_tags = set_texts "tags" (host_tags cfg pxe_host_cfg pxe_host) pxe_host in
    set_texts "dhcp_options" (host_dhcp_options cfg pxe_host_cfg option_value option_code) with_tags

unfoldable pub generated_pxe_boot :
    Fields → Fields → Fields → String → String → Value → Value → Value → Option Fields
generated_pxe_boot cfg boot_cfg pxe_host name networkid default_filename default_serveraddress
      default_servername =
    let filename = clean_string (
      first_present (
        get "filename" boot_cfg
        ∷ get "bootfile" boot_cfg
        ∷ get "filename" pxe_host
        ∷ default_filename
        ∷ [])) in
    let serveraddress = clean_string (
      first_present
        (get "serveraddress" boot_cfg ∷ get "serveraddress" cfg ∷ default_serveraddress ∷ [])) in
    let servername = clean_string (
      first_present (
        get "servername" boot_cfg
        ∷ get "servername" cfg
        ∷ default_servername
        ∷ str serveraddress
        ∷ [])) in
    if as_bool (get_or "enabled" (bool true) boot_cfg)
      && (not (filename == "") || not (serveraddress == "") || not (servername == ""))
    then some (
        field "name" (str (or_text (clean_string (get "name" boot_cfg)) name)) (
          field "networkid" (str (or_text (clean_string (get "networkid" boot_cfg)) networkid)) (
            field "filename" (str filename) (
              field "serveraddress" (str serveraddress)
                (field "servername" (str servername) end)))))
    else none

unfoldable pub generated_overlay_client : Fields → Fields → String → Value → String → Option Fields
unfolding set_present
generated_overlay_client cfg overlay_cfg overlay_id role option_value =
    let base = field "id" (str overlay_id) end in
    let with_role = if present role then set "role" (str (clean_string role)) base else base in
    let with_option =
      if option_value == "" then with_role else set "option_value" (str option_value) with_role in
    if as_bool (get_or "enabled" (bool true) overlay_cfg) && not (overlay_id == "")
    then some (
        set_present
          (("ansible_extra_vars", mapping_value cfg overlay_cfg "ansible_extra_vars")
            ∷ ("mac", mapping_value cfg overlay_cfg "mac")
            ∷ [])
          with_option)
    else none
