-- ===== src/Value/Laws.antt =====
-- The laws of dicts.
use homecluster_infra.Base.{
  String, ◌≡◌, refl, ◌||◌, some, ◌==◌, string_eq, arith, eq_iff, if◌then◌else◌,
}
use homecluster_infra.Value.Data.{Value, Fields, end, field, lookup, set, has}

pub lookup-set :
    (j k : String) (v : Value) (d : Fields)
    → lookup j (set k v d) ≡ (if k == j then some v else lookup j d)
unfolding lookup set
lookup-set j k v end = refl
lookup-set j k v (field i w d) =
    ground (arith, eq_iff k j, eq_iff i k, eq_iff i j, lookup-set j k v d)

pub lookup-set_self : (k : String) (v : Value) (d : Fields) → lookup k (set k v d) ≡ some v
lookup-set_self k v d = ground (arith, lookup-set k k v d, eq_iff k k)

pub has-set : (j k : String) (v : Value) (d : Fields) → has j (set k v d) ≡ (k == j || has j d)
unfolding has
has-set j k v d = ground (arith, lookup-set j k v d)
