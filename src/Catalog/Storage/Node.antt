-- ===== src/Catalog/Storage/Node.antt =====
-- The storage variables of a node against the inventory: what is explicit wins, and nothing beside
-- the named variables is copied.
use homecluster_infra.Base.{
  String, ◌≡◌, refl, ◌∙◌, Bool, true, false, ◌||◌, not, none, ◌==◌, string_eq, contains, inl, inr,
  sym, Bool-cases, none-some, arith, if◌then◌else◌,
}
use homecluster_infra.Value.{
  Value, Fields, end, field, update, lookup, set, has, lookup-set, is_null,
}
use homecluster_infra.Catalog.Keys.{
  k3s_local_storage_bool_keys, k3s_local_storage_value_keys, k3s_iscsi_session_bool_keys,
  k3s_iscsi_session_value_keys,
}
use homecluster_infra.Catalog.Storage.{
  k3s_local_storage_defaults, with_password_sync, build_k3s_local_storage_vars,
  build_k3s_iscsi_session_vars,
}
use homecluster_infra.Catalog.Storage.Laws.{lookup-copy_keys}

unnamed_default :
    (hv : Fields) (ephemeral : Bool) (k : String)
    → contains k3s_local_storage_bool_keys k ≡ false
    → contains k3s_local_storage_value_keys k ≡ false
    → lookup k (k3s_local_storage_defaults hv ephemeral) ≡ none
unfolding k3s_local_storage_bool_keys k3s_local_storage_value_keys k3s_local_storage_defaults lookup
unnamed_default hv ephemeral k b v = ground arith

sync_is_named :
    (k : String)
    → contains k3s_local_storage_bool_keys k ≡ false
    → ("k3s_local_storage_node_password_sync_enabled" == k) ≡ false
unfolding k3s_local_storage_bool_keys
sync_is_named k b = ground arith

lookup-if_set :
    (test : Bool) (key k : String) (v : Value) (d : Fields)
    → (key == k) ≡ false
    → lookup k (if test then set key v d else d) ≡ lookup k d
lookup-if_set true key k v d e = rw (lookup-set k key v d, e)
lookup-if_set false key k v d e = refl

no_other_default :
    (hv : Fields) (ephemeral : Bool) (sync : Value) (k : String)
    → contains k3s_local_storage_bool_keys k ≡ false
    → contains k3s_local_storage_value_keys k ≡ false
    → lookup k (with_password_sync hv sync (k3s_local_storage_defaults hv ephemeral)) ≡ none
unfolding with_password_sync
no_other_default hv ephemeral sync k b v =
    lookup-if_set (not (is_null sync) || has "k3s_local_storage_node_password_sync_enabled" hv) _ k
      _ _ (sync_is_named k b)
    ∙ unnamed_default hv ephemeral k b v

nothing_else_local :
    (hv : Fields) (ephemeral : Bool) (sync : Value) (k : String)
    → contains k3s_local_storage_bool_keys k ≡ false
    → contains k3s_local_storage_value_keys k ≡ false
    → lookup k (build_k3s_local_storage_vars hv ephemeral sync) ≡ none
nothing_else_local hv ephemeral sync k b v =
    unfold build_k3s_local_storage_vars in
    rw (lookup-copy_keys, v, lookup-copy_keys, b) (no_other_default hv ephemeral sync k b v)

nothing_else_session :
    (hv : Fields) (k : String)
    → contains k3s_iscsi_session_bool_keys k ≡ false
    → contains k3s_iscsi_session_value_keys k ≡ false
    → lookup k (build_k3s_iscsi_session_vars hv) ≡ none
nothing_else_session hv k b v =
    unfold build_k3s_iscsi_session_vars in
    rw (lookup-copy_keys, v, lookup-copy_keys, b) (unfold lookup in refl)

lookup-update :
    (k : String) (d e : Fields)
    → lookup k d ≡ none
    → lookup k e ≡ none
    → lookup k (update d e) ≡ none
unfolding update
lookup-update k d end h g = h
lookup-update k d (field j v e) h g = elim (Bool-cases (j == k)) [
  | inl same ↦ unfold lookup in absurd (none-some (sym (rw same at g)))
  | inr other ↦
      lookup-update k (set j v d) e (rw (lookup-set k j v d, other) h)
        (unfold lookup in rw other at g)
]

-- A variable that is named neither among the switches and other settings of the disk nor among
-- those of an iSCSI session is not among the variables of the disk once they are updated with those
-- of the session.
pub nothing_else_copied :
    (hv : Fields) (ephemeral : Bool) (sync : Value) (k : String)
    → contains k3s_local_storage_bool_keys k ≡ false
    → contains k3s_local_storage_value_keys k ≡ false
    → contains k3s_iscsi_session_bool_keys k ≡ false
    → contains k3s_iscsi_session_value_keys k ≡ false
    → lookup k
        (update (build_k3s_local_storage_vars hv ephemeral sync) (build_k3s_iscsi_session_vars hv))
      ≡ none
nothing_else_copied hv ephemeral sync k b v session_b session_v =
    lookup-update k (build_k3s_local_storage_vars hv ephemeral sync)
      (build_k3s_iscsi_session_vars hv) (nothing_else_local hv ephemeral sync k b v)
      (nothing_else_session hv k session_b session_v)
