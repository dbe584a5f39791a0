-- ===== src/Value/Data.antt =====
-- The values that the inventory holds: what YAML and JSON give, without floats. The keys of a dict
-- are texts, which is what Ansible's variables have, so `str(key)` is the key.
use homecluster_infra.Base.{
  ℕ, suc, String, ◌≡◌, Bool, true, false, Option, none, some, List, [], ◌∷◌, ◌==◌, string_eq,
  if◌then◌else◌,
}

-- `negsuc n` is -(n + 1).
pub data ℤ : Type 0 where
  pos : ℕ → ℤ
  negsuc : ℕ → ℤ

mutual
  pub data Value : Type 0 where
    null : Value
    bool : Bool → Value
    int : ℤ → Value
    str : String → Value
    list : Items → Value
    dict : Fields → Value

  pub data Items : Type 0 where
    nil : Items
    cons : Value → Items → Items

  pub data Fields : Type 0 where
    end : Fields
    field : String → Value → Fields → Fields

abbrev pub to_list : Items → List Value
to_list nil = []
to_list (cons x xs) = x ∷ to_list xs

abbrev pub of_list : List Value → Items
of_list [] = nil
of_list (x ∷ xs) = cons x (of_list xs)

-- A list of texts as a value.
abbrev pub of_texts : List String → Items
of_texts [] = nil
of_texts (x ∷ xs) = cons (str x) (of_texts xs)

-- `isinstance(value, Mapping)`
abbrev pub is_mapping : Value → Bool
is_mapping (dict d) = true
is_mapping _ = false

abbrev pub is_null : Value → Bool
is_null null = true
is_null _ = false

-- The dicts, in insertion order.
unfoldable pub lookup : String → Fields → Option Value
lookup k end = none
lookup k (field j v d) = if j == k then some v else lookup k d

-- `d[k] = v`
unfoldable pub set : String → Value → Fields → Fields
set k v end = field k v end
set k v (field j w d) = if j == k then field j v d else field j w (set k v d)

-- `k in d`
unfoldable pub has : String → Fields → Bool
unfolding lookup
has k d = elim (lookup k d) [ none ↦ false | some v ↦ true ]

-- `d.get(k)`
unfoldable pub get : String → Fields → Value
unfolding lookup
get k d = elim (lookup k d) [ none ↦ null | some v ↦ v ]

-- `d.get(k, default)`
unfoldable pub get_or : String → Value → Fields → Value
unfolding lookup
get_or k other d = elim (lookup k d) [ none ↦ other | some v ↦ v ]

-- `d.update(e)`
unfoldable pub update : Fields → Fields → Fields
unfolding set
update d end = d
update d (field k v e) = update (set k v d) e

unfoldable pub keys : Fields → List String
keys end = []
keys (field k v d) = k ∷ keys d

unfoldable pub size : Fields → ℕ
size end = 0
size (field k v d) = suc (size d)

-- No key stands twice in any dict of the value, which Python's dicts have by construction.
abbrev mutual
  pub IsWellFormed : Value → Type 0
  IsWellFormed (list xs) = AreWellFormed xs
  IsWellFormed (dict d) = AreDistinct d
  IsWellFormed _ = Unit

  pub AreWellFormed : Items → Type 0
  AreWellFormed nil = Unit
  AreWellFormed (cons x xs) = IsWellFormed x × AreWellFormed xs

  pub AreDistinct : Fields → Type 0
  AreDistinct end = Unit
  AreDistinct (field k v d) = (lookup k d ≡ none) × IsWellFormed v × AreDistinct d
