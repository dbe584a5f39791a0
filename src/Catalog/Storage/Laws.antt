-- ===== src/Catalog/Storage/Laws.antt =====
-- What the copying loops copy, and what a persistent server may not have.
use homecluster_infra.Base.{
  ◌&&◌, String, ◌≡◌, refl, Bool, false, not, Option, none, some, List, [], ◌∷◌, string_eq, ok,
  contains, arith, eq_iff, if◌then◌else◌, Bool-cases, Option-cases, inl, inr, is_ok, all, ◌∙◌,
}
use homecluster_infra.Value.{Value, bool, Fields, lookup, set, get_or, lookup-set}
use homecluster_infra.Catalog.Scalars.{as_bool}
use homecluster_infra.Catalog.Storage.{
  copy_keys, destructive_keys, persistent_loop, persistent_stg_storage_vars,
}

abbrev pub read_or : (Value → Value) → Option Value → Option Value → Option Value
read_or read (some v) other = some (read v)
read_or read none other = other

-- The law of the loops: a listed variable that the inventory sets is copied, and nothing else
-- changes.
pub lookup-copy_keys :
    (read : Value → Value) (keys : List String) (hv result : Fields) (k : String)
    → lookup k (copy_keys read keys hv result)
      ≡ (if contains keys k then read_or read (lookup k hv) (lookup k result) else lookup k result)
unfolding copy_keys
lookup-copy_keys read [] hv result k = refl
lookup-copy_keys read (key ∷ keys) hv result k = elim (Option-cases (lookup key hv)) [
  | inl e ↦ rw (e, lookup-copy_keys read keys hv result k) (ground (arith, eq_iff key k))
  | inr (v, e) ↦
      rw (e, lookup-copy_keys read keys hv (set key (read v) result) k)
        (ground (arith, eq_iff key k, lookup-set k key (read v) result))
]

-- After the check the listed settings are off, and every other variable is as it was.
lookup-persistent_loop :
    (keys : List String) (values : Fields) {result : Fields} (k : String)
    → persistent_loop keys values ≡ ok result
    → lookup k result ≡ (if contains keys k then some (bool false) else lookup k values)
unfolding persistent_loop
lookup-persistent_loop [] values k h = ground arith
lookup-persistent_loop (key ∷ keys) values k h =
    elim (Bool-cases (as_bool (get_or key (bool false) values))) [
      | inl on ↦ absurd (ground arith)
      | inr off ↦
          lookup-persistent_loop keys (set key (bool false) values) k (rw off at h)
          ∙ ground (arith, lookup-set k key (bool false) values, eq_iff key k)
    ]

-- The flag that `_as_bool(values.get(key, False))` reads.
abbrev pub flag : String → Fields → Bool
flag key values = as_bool (get_or key (bool false) values)

flag-set_off :
    (key k : String) (values : Fields)
    → flag key values ≡ false
    → flag k (set key (bool false) values) ≡ flag k values
unfolding get_or as_bool
flag-set_off key k values off = ground (arith, lookup-set k key (bool false) values, eq_iff key k)

flags-set_off :
    (keys : List String) (key : String) (values : Fields)
    → flag key values ≡ false
    → all (λ k. not (flag k (set key (bool false) values))) keys
      ≡ all (λ k. not (flag k values)) keys
flags-set_off [] key values off = refl
flags-set_off (k ∷ keys) key values off =
    rw (flag-set_off key k values off, flags-set_off keys key values off)

is_ok-persistent_loop :
    (keys : List String) (values : Fields)
    → is_ok (persistent_loop keys values) ≡ all (λ k. not (flag k values)) keys
unfolding persistent_loop
is_ok-persistent_loop [] values = refl
is_ok-persistent_loop (key ∷ keys) values = elim (Bool-cases (flag key values)) [
  | inl on ↦ rw on
  | inr off ↦
      rw off (
        is_ok-persistent_loop keys (set key (bool false) values)
        ∙ flags-set_off keys key values off)
]

-- The storage variables of a persistent server are accepted exactly if none of allow_format,
-- force_format and ephemeral_agent_data is on.
pub is_ok-persistent_stg_storage_vars :
    (values : Fields)
    → is_ok (persistent_stg_storage_vars values) ≡ (
        not (flag "k3s_local_storage_allow_format" values)
        && not (flag "k3s_local_storage_force_format" values)
        && not (flag "k3s_local_storage_ephemeral_agent_data" values))
unfolding persistent_stg_storage_vars
is_ok-persistent_stg_storage_vars values =
    is_ok-persistent_loop destructive_keys values ∙ ground arith

-- What is accepted has the destructive settings off, and is otherwise the same.
pub lookup-persistent_stg_storage_vars :
    (values : Fields) {result : Fields} (k : String)
    → persistent_stg_storage_vars values ≡ ok result
    → lookup k result ≡ (if contains destructive_keys k then some (bool false) else lookup k values)
unfolding persistent_stg_storage_vars
lookup-persistent_stg_storage_vars values k h = lookup-persistent_loop destructive_keys values k h
