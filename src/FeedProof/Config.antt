-- ===== src/FeedProof/Config.antt =====
-- `configuration` of banip_feed_proof.py, from the JSON object that the file holds.
use homecluster_infra.Base.{
  ◌≡◌, refl, subst, ◌⊎◌, inl, inr, String, Bool, true, false, ◌&&◌, not, Option, none, some, List,
  [], ◌∷◌, ◌==◌, string_eq, nat_eq, eq_iff, length, leb, all, contains, sort, if◌then◌else◌, Result,
  ok, err, ◌>>=◌, ◌>>◌, require, require-eq-ok, ok-injective, ap, none-some, some-eq, text_le,
  Option-cases, Bool-cases, arith, false-true,
}
use homecluster_infra.Value.{
  Value, null, bool, dict, int, str, list, pos, to_list, Fields, get, has, keys,
}
use homecluster_infra.FeedProof.Parse.{is_registered}

abbrev config_keys : List String
config_keys = "schema" ∷ "feeds" ∷ []

-- `type(value["schema"]) is int and value["schema"] == 1`
abbrev is_schema_one : Value → Bool
is_schema_one (int (pos n)) = n == 1
is_schema_one value = false

-- The items, if all are texts that name a feed of the registry.
unfoldable pub registered_names : List Value → Option (List String)
registered_names [] = some []
registered_names (str s ∷ rest) =
    if is_registered s
    then elim (registered_names rest) [ none ↦ none | some names ↦ some (s ∷ names) ]
    else none
registered_names (v ∷ rest) = none

-- `len(set(names)) == len(names)`
abbrev are_distinct : List String → Bool
are_distinct [] = true
are_distinct (name ∷ names) = not (contains names name) && are_distinct names

abbrev listed_names : Value → Option (List String)
listed_names (list feeds) = registered_names (to_list feeds)
listed_names value = none

unfoldable pub accept_names : Option (List String) → Result (List String)
unfolding ◌>>=◌
accept_names none = err "unsupported_feed_configuration"
accept_names (some names) =
    require (leb 1 (length names) && leb (length names) 2 && are_distinct names)
      "unsupported_feed_configuration"
    >> ok (sort names)

-- The configured feeds, in order.
unfoldable pub configuration : Fields → Result (List String)
unfolding accept_names registered_names ◌>>=◌ get has
configuration value =
    require
      (all (contains config_keys) (keys value)
        && has "schema" value
        && has "feeds" value
        && is_schema_one (get "schema" value))
      "invalid_configuration"
    >> accept_names (listed_names (get "feeds" value))

registered_names-all :
    (items : List Value) (names : List String)
    → registered_names items ≡ some names
    → all is_registered names ≡ true
unfolding registered_names
registered_names-all [] names h = subst (λ n. all is_registered n ≡ true) (some-eq h) refl
registered_names-all (str s ∷ rest) names h = elim (Bool-cases (is_registered s)) [
  | inr e ↦ absurd (none-some (rw (registered_names, e) at h))
  | inl e ↦ elim (Option-cases (registered_names rest)) [
    | inl f ↦ absurd (none-some (rw (registered_names, e, f) at h))
    | inr (more, f) ↦
        let this : s ∷ more ≡ names = some-eq (rw (registered_names, e, f) at h) in
        subst (λ n. all is_registered n ≡ true) this (rw e (registered_names-all rest more f))
  ]
]
registered_names-all (null ∷ rest) names h = absurd (none-some h)
registered_names-all (bool b ∷ rest) names h = absurd (none-some h)
registered_names-all (int n ∷ rest) names h = absurd (none-some h)
registered_names-all (list l ∷ rest) names h = absurd (none-some h)
registered_names-all (dict d ∷ rest) names h = absurd (none-some h)

listed_names-all :
    (v : Value) (names : List String) → listed_names v ≡ some names → all is_registered names ≡ true
listed_names-all (list l) names h = registered_names-all (to_list l) names h
listed_names-all null names h = absurd (none-some h)
listed_names-all (bool b) names h = absurd (none-some h)
listed_names-all (int n) names h = absurd (none-some h)
listed_names-all (str s) names h = absurd (none-some h)
listed_names-all (dict d) names h = absurd (none-some h)

err_ok : {e : String} {names : List String} → err e ≡ ok names → ⊥
err_ok h = cc

abbrev pub IsChoice : List String → Type 0
IsChoice feeds =
    (feeds ≡ "dshield" ∷ []) ⊎ ((feeds ≡ "feodo" ∷ []) ⊎ (feeds ≡ "dshield" ∷ "feodo" ∷ []))

registered-cases : (s : String) → is_registered s ≡ true → (s ≡ "dshield") ⊎ (s ≡ "feodo")
registered-cases s h = elim (Bool-cases (s == "dshield")) [
  | inl e ↦ inl ((eq_iff s "dshield").0 e)
  | inr e ↦ inr ((eq_iff s "feodo").0 (ground arith))
]

one_name : (x : String) → is_registered x ≡ true → IsChoice (x ∷ [])
one_name x h = elim (registered-cases x h) [
  | inl e ↦ inl (ap (λ s. s ∷ []) e)
  | inr e ↦ inr (inl (ap (λ s. s ∷ []) e))
]

two_names :
    (x y : String)
    → is_registered x ≡ true
    → is_registered y ≡ true
    → are_distinct (x ∷ y ∷ []) ≡ true
    → IsChoice (sort (x ∷ y ∷ []))
unfolding sort text_le
two_names x y hx hy apart = elim (registered-cases x hx) [
  | inl e ↦ elim (registered-cases y hy) [
    | inl f ↦ absurd (false-true (rw (e, f) at apart))
    | inr f ↦ inr (inr (rw (e, f) refl))
  ]
  | inr e ↦ elim (registered-cases y hy) [
    | inl f ↦ inr (inr (rw (e, f) refl))
    | inr f ↦ absurd (false-true (rw (e, f) at apart))
  ]
]

accepted-IsChoice :
    (names feeds : List String)
    → all is_registered names ≡ true
    → accept_names (some names) ≡ ok feeds
    → IsChoice feeds
unfolding accept_names
accepted-IsChoice [] feeds good h =
    absurd (false-true (require-eq-ok false "unsupported_feed_configuration" (ok (sort [])) h).0)
accepted-IsChoice (x ∷ []) feeds good h =
    subst IsChoice
      (ok-injective (require-eq-ok true "unsupported_feed_configuration" (ok (sort (x ∷ []))) h).1)
      (unfold sort in one_name x (ground arith))
accepted-IsChoice (x ∷ y ∷ []) feeds good h =
    let (fine, same) = require-eq-ok (are_distinct (x ∷ y ∷ [])) _ _ h in
    subst IsChoice (ok-injective same) (two_names x y (ground arith) (ground arith) fine)
accepted-IsChoice (x ∷ y ∷ z ∷ rest) feeds good h =
    let (fine, same) =
      require-eq-ok
        (leb 1 (length (x ∷ y ∷ z ∷ rest))
          && leb (length (x ∷ y ∷ z ∷ rest)) 2
          && are_distinct (x ∷ y ∷ z ∷ rest))
        _ _ h in
    ground arith

-- A configuration that is accepted names the dshield feed, the feodo feed, or both in this order.
pub configuration-IsChoice :
    (value : Fields) (feeds : List String) → configuration value ≡ ok feeds → IsChoice feeds
unfolding configuration accept_names
configuration-IsChoice value feeds h =
    let (shape, h1) =
      require-eq-ok
        (all (contains config_keys) (keys value)
          && has "schema" value
          && has "feeds" value
          && is_schema_one (get "schema" value))
        _ _ h in
    elim (Option-cases (listed_names (get "feeds" value))) [
      | inl e ↦ absurd (err_ok (rw e at h1))
      | inr (names, e) ↦
          accepted-IsChoice names feeds (listed_names-all (get "feeds" value) names e) (rw e at h1)
    ]
