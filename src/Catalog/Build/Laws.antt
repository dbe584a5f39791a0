-- ===== src/Catalog/Build/Laws.antt =====
-- One entry for each served host, and nothing but the hand-written entries when the filter is off.
use homecluster_infra.Base.{
  ℕ, suc, ◌+◌, String, ◌≡◌, refl, ap, false, none, some, List, [], ◌∷◌, ◌++◌, ◌∙◌, length,
  length-append, ok, ◌>>=◌, >>=-eq-ok, arith, Option-cases, inl, inr,
}
use homecluster_infra.Value.{Fields}
use homecluster_infra.Catalog.Merge.{merge}
use homecluster_infra.Catalog.Scalars.{as_bool, as_list}
use homecluster_infra.Catalog.Legacy.{non_shadowed_legacy, legacy_mismatches}
use homecluster_infra.Catalog.NodeVars.{mapping_or_empty}
use homecluster_infra.Catalog.Build.{
  Defaults, Generated, nothing_generated, Client, add_client, served, walk, build_generated_client,
  mapping_items, Arguments, Catalog, assemble, build_openwrt_pxe_client_catalog,
}

-- The hosts of a list that this router serves.
pub count_served : Fields → String → List String → ℕ
count_served hostvars router_name [] = 0
count_served hostvars router_name (hostname ∷ hosts) =
    let more = count_served hostvars router_name hosts in
    elim (served hostvars router_name hostname) [ none ↦ more | some found ↦ suc more ]

length-add_client :
    (g : Generated) (c : Client) → length (add_client g c).pxe_hosts ≡ length g.pxe_hosts + 1
unfolding add_client
length-add_client g c = length-append g.pxe_hosts (c.pxe_host ∷ [])

-- A walk that succeeds has one DHCP entry more for each served host.
pub length-walk :
    (hostvars : Fields) (router_name : String) (d : Defaults) (hosts : List String) (g : Generated)
    {out : Generated}
    → walk hostvars router_name d hosts g ≡ ok out
    → length out.pxe_hosts ≡ length g.pxe_hosts + count_served hostvars router_name hosts
unfolding walk count_served
length-walk hostvars router_name d [] g h = ground arith
length-walk hostvars router_name d (hostname ∷ hosts) g h =
    elim (Option-cases (served hostvars router_name hostname)) [
      | inl skipped ↦
          rw (skipped, count_served)
            (length-walk hostvars router_name d hosts g (rw (skipped, walk) at h))
      | inr (found, here) ↦
          let (client, built, rest) =
            >>=-eq-ok (build_generated_client hostname found.0 found.1 d)
              (λ client. walk hostvars router_name d hosts (add_client g client))
              (rw (here, walk) at h) in
          rw (here, count_served)
            (omega (
              arith,
              length-walk hostvars router_name d hosts (add_client g client) rest,
              length-add_client g client,
            ))
    ]

non_shadowed_legacy-nil :
    (legacy : List Fields) (keys : List String) → non_shadowed_legacy legacy [] keys ≡ legacy
unfolding non_shadowed_legacy
non_shadowed_legacy-nil [] keys = refl
non_shadowed_legacy-nil (item ∷ legacy) keys =
    ap (λ r. item ∷ r) (non_shadowed_legacy-nil legacy keys)

append-nil {ℓ} : {A : Type ℓ} (xs : List A) → xs ++ [] ≡ xs
append-nil [] = refl
append-nil (x ∷ xs) = ap (λ r. x ∷ r) (append-nil xs)

-- Switched off, the filter returns the hand-written hosts, boot entries, overlays and group
-- variables as they are, and reports neither a conflict nor a mismatch of an entry.
pub switched_off :
    (hostvars groups : Fields) (router_name : String) (a : Arguments)
    → as_bool a.enabled ≡ false
    → (c : Catalog) × (build_openwrt_pxe_client_catalog hostvars groups router_name a ≡ ok c)
      × (c.pxe_hosts ≡ mapping_items (as_list a.legacy_pxe_hosts))
      × (c.pxe_boots ≡ mapping_items (as_list a.legacy_pxe_boots))
      × (c.overlay_clients ≡ mapping_items (as_list a.legacy_overlay_clients))
      × (c.group_vars ≡ mapping_or_empty a.legacy_group_vars)
      × (c.conflicts ≡ [])
      × (c.pxe_host_mismatches ≡ [])
      × (c.pxe_boot_mismatches ≡ [])
      × (c.overlay_mismatches ≡ [])
unfolding build_openwrt_pxe_client_catalog assemble ◌>>=◌ merge legacy_mismatches
switched_off hostvars groups router_name a off = (
  assemble a nothing_generated,
  rw off,
  append-nil _ ∙ non_shadowed_legacy-nil _ _,
  append-nil _ ∙ non_shadowed_legacy-nil _ _,
  append-nil _ ∙ non_shadowed_legacy-nil _ _,
  refl,
  refl,
  refl,
  refl,
  refl,
)
