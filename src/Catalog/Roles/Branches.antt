-- ===== src/Catalog/Roles/Branches.antt =====
-- The branches for the roles leave the entry of the tailscale role alone.
use homecluster_infra.Base.{
  String, ◌≡◌, refl, Bool, true, false, List, ◌==◌, string_eq, Result, ok, ◌>>=◌, >>=-eq-ok,
  ok-injective, subst, arith, if◌then◌else◌,
}
use homecluster_infra.Value.{Value, dict, Fields, lookup, set, lookup-set}
use homecluster_infra.Catalog.Roles.{
  add_base, add_picoclaw, add_stg_server, add_stg_agent, add_stg_storage, add_prd_server,
  add_prd_storage,
}

-- The other branches write under other names.
module _ (k key : String) (apart : (key == k) ≡ false) (d : Fields) where
  pub lookup-if_set :
      (test : Bool) (v : Value) → lookup k (if test then set key v d else d) ≡ lookup k d
  lookup-if_set true v = rw (lookup-set k key v d, apart)
  lookup-if_set false v = refl

  pub lookup-unless_set :
      (test : Bool) (v : Value) → lookup k (if test then d else set key v d) ≡ lookup k d
  lookup-unless_set true v = refl
  lookup-unless_set false v = rw (lookup-set k key v d, apart)

  pub lookup-if_built :
      (test : Bool) (m : Result Fields) (build : Fields → Value) {next : Fields}
      → (if test then (m >>= λ vars. ok (set key (build vars) d)) else ok d) ≡ ok next
      → lookup k next ≡ lookup k d
  lookup-if_built true m build {next} h =
      let (vars, _, e) = >>=-eq-ok _ _ h in
      subst (λ r. lookup k r ≡ lookup k d) (ok-injective e)
        (rw (lookup-set k key (build vars) d, apart))
  lookup-if_built false m build h = ground arith

abbrev pub tailscale : String
tailscale = "host_tailscale"

-- Each branch leaves the entry of the tailscale role alone.
module _ (d : Fields) where
  pub lookup-add_base :
      (hv cfg : Fields) (role_names : List String)
      → lookup tailscale (add_base hv cfg role_names d) ≡ lookup tailscale d
  unfolding add_base
  lookup-add_base hv cfg role_names = lookup-if_set tailscale "base" refl d _ _

  pub lookup-add_picoclaw :
      (hv : Fields) (role_names : List String)
      → lookup tailscale (add_picoclaw hv role_names d) ≡ lookup tailscale d
  unfolding add_picoclaw
  lookup-add_picoclaw hv role_names = lookup-if_set tailscale "base" refl d _ _

  pub lookup-add_stg_server :
      (hostname : String) (hv cfg : Fields) (role_names : List String) (overlay_id : String)
      (pull : Fields) {next : Fields}
      → add_stg_server hostname hv cfg role_names overlay_id pull d ≡ ok next
      → lookup tailscale next ≡ lookup tailscale d
  unfolding add_stg_server
  lookup-add_stg_server hostname hv cfg role_names overlay_id pull h =
      lookup-if_built tailscale "k3s_stg_server" refl d _ _ (λ vars. dict vars) h

  pub lookup-add_stg_agent :
      (hostname : String) (hv cfg : Fields) (role_names : List String) (overlay_id : String)
      (pull : Fields) {next : Fields}
      → add_stg_agent hostname hv cfg role_names overlay_id pull d ≡ ok next
      → lookup tailscale next ≡ lookup tailscale d
  unfolding add_stg_agent
  lookup-add_stg_agent hostname hv cfg role_names overlay_id pull h =
      lookup-if_built tailscale "k3s_stg_agent" refl d _ _ (λ vars. dict vars) h

  pub lookup-add_stg_storage :
      (hv stg : Fields) (role_names : List String) (pull : Fields)
      → lookup tailscale (add_stg_storage hv stg role_names pull d) ≡ lookup tailscale d
  unfolding add_stg_storage
  lookup-add_stg_storage hv stg role_names pull =
      lookup-if_set tailscale "k3s_stg_storage" refl d _ _

  pub lookup-add_prd_server :
      (hostname : String) (hv cfg : Fields) (role_names : List String) (overlay_id : String)
      {next : Fields}
      → add_prd_server hostname hv cfg role_names overlay_id d ≡ ok next
      → lookup tailscale next ≡ lookup tailscale d
  unfolding add_prd_server
  lookup-add_prd_server hostname hv cfg role_names overlay_id h =
      lookup-if_built tailscale "k3s_prd_server" refl d _ _ _ h

  pub lookup-add_prd_storage :
      (hv : Fields) (role_names : List String)
      → lookup tailscale (add_prd_storage hv role_names d) ≡ lookup tailscale d
  unfolding add_prd_storage
  lookup-add_prd_storage hv role_names = lookup-if_set tailscale "k3s_prd_storage" refl d _ _
