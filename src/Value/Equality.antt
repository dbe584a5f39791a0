-- ===== src/Value/Equality.antt =====
-- Python's `==` between values: a Boolean equals the integer that it is, and the order of a dict's
-- keys does not count.
use homecluster_infra.Base.{
  String, ◌≡◌, refl, sym, subst, ◌∙◌, if◌then◌else◌, inl, inr, Bool, true, false, ◌&&◌, not, Option,
  none, some, ◌==◌, nat_eq, string_eq, arith, eq_iff, Bool-cases,
}
use homecluster_infra.Value.Data.{
  ℤ, pos, negsuc, Value, null, bool, int, str, list, dict, Items, nil, cons, Fields, end, field,
  lookup, size, is_mapping,
}

abbrev int_beq : ℤ → ℤ → Bool
int_beq (pos m) (pos n) = m == n
int_beq (negsuc m) (negsuc n) = m == n
int_beq _ _ = false

abbrev bool_beq : Bool → Bool → Bool
bool_beq true b = b
bool_beq false b = not b

-- `True == 1` and `False == 0`
abbrev bool_int : Bool → ℤ → Bool
bool_int true n = int_beq n (pos 1)
bool_int false n = int_beq n (pos 0)

unfoldable mutual
  pub value_eq : Value → Value → Bool
  value_eq null null = true
  value_eq (bool a) (bool b) = bool_beq a b
  value_eq (bool a) (int n) = bool_int a n
  value_eq (int n) (bool a) = bool_int a n
  value_eq (int m) (int n) = int_beq m n
  value_eq (str s) (str t) = s == t
  value_eq (list xs) (list ys) = items_eq xs ys
  value_eq (dict d) (dict e) = size d == size e && fields_le d e
  value_eq _ _ = false

  items_eq : Items → Items → Bool
  items_eq nil nil = true
  items_eq (cons x xs) (cons y ys) = value_eq x y && items_eq xs ys
  items_eq _ _ = false

  -- Every entry of the first dict stands in the second, with an equal value.
  fields_le : Fields → Fields → Bool
  fields_le end e = true
  fields_le (field k v d) e =
      let rest = fields_le d e in elim (lookup k e) [ none ↦ false | some w ↦ value_eq v w && rest ]

-- Equal values are both dicts or neither.
pub is_mapping-eq : (v w : Value) → value_eq v w ≡ true → is_mapping v ≡ is_mapping w
unfolding value_eq
is_mapping-eq (dict d) (dict e) h = refl
is_mapping-eq (dict d) w h = cc
is_mapping-eq null (dict e) h = cc
is_mapping-eq (bool b) (dict e) h = cc
is_mapping-eq (int n) (dict e) h = cc
is_mapping-eq (str s) (dict e) h = cc
is_mapping-eq (list xs) (dict e) h = cc
is_mapping-eq v w h = refl

-- An entry of a dict has its like in an equal dict.
fields_le_head :
    (o : Option Value) (x : Value) (rest : Bool)
    → (elim o as (λ _. Bool) [ none ↦ false | some w ↦ value_eq x w && rest ]) ≡ true
    → (w : Value) × (o ≡ some w) × (value_eq x w ≡ true) × (rest ≡ true)
fields_le_head none x rest h = cc
fields_le_head (some w) x rest h = (w, refl, ground arith, ground arith)

fields_le-field :
    (k : String) (x : Value) (d e : Fields)
    → fields_le (field k x d) e
      ≡ (elim (lookup k e) as (λ _. Bool) [ none ↦ false | some w ↦ value_eq x w && fields_le d e ])
unfolding value_eq
fields_le-field k x d e = refl

lookup-field :
    (k f : String) (x : Value) (d : Fields)
    → lookup f (field k x d) ≡ (if k == f then some x else lookup f d)
unfolding lookup
lookup-field k f x d = refl

lookup-fields_le :
    (d e : Fields) (f : String) (v : Value)
    → fields_le d e ≡ true
    → lookup f d ≡ some v
    → (w : Value) × (lookup f e ≡ some w) × (value_eq v w ≡ true)
lookup-fields_le end e f v h at_f = unfold lookup in cc
lookup-fields_le (field k x d) e f v h at_f =
    let (w, there, agrees, rest) =
      fields_le_head (lookup k e) x (fields_le d e) (sym (fields_le-field k x d e) ∙ h) in
    let found = sym (lookup-field k f x d) ∙ at_f in
    elim (Bool-cases (k == f)) [
      | inl same ↦
          let this : x ≡ v = ground arith in
          (
            w,
            subst (λ r. lookup r e ≡ some w) ((eq_iff k f).0 same) there,
            subst (λ u. value_eq u w ≡ true) this agrees,
          )
      | inr other ↦ lookup-fields_le d e f v rest (rw other at found)
    ]

pub lookup-dict_eq :
    (d e : Fields) (f : String) (v : Value)
    → value_eq (dict d) (dict e) ≡ true
    → lookup f d ≡ some v
    → (w : Value) × (lookup f e ≡ some w) × (value_eq v w ≡ true)
lookup-dict_eq d e f v h at_f = lookup-fields_le d e f v (unfold value_eq in ground arith) at_f
