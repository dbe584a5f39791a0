-- ===== src/Base/Assoc.antt =====
-- Dictionaries from texts, in the order of insertion.
use Prim.Native.String.{String}
use mathlib.Core.Path.{◌≡◌, refl}
use mathlib.Core.Option.{Option, none, some}
use mathlib.Core.List.{List, [], ◌∷◌}
use native.Mathlib.Omega.{arith}
use text.Mathlib.TextEquality.{eq_iff}
use homecluster_infra.Base.Tests.{◌==◌, string_eq, if◌then◌else◌}

module _ {ℓ} {A : Type ℓ} where
  -- `d.get(k)`
  unfoldable pub find : String → List (String × A) → Option A
  find k [] = none
  find k ((j, v) ∷ rest) = if j == k then some v else find k rest

  -- `d[k] = v`
  unfoldable pub put : String → A → List (String × A) → List (String × A)
  put k v [] = (k, v) ∷ []
  put k v ((j, w) ∷ rest) =
      let more = put k v rest in if j == k then (j, v) ∷ rest else (j, w) ∷ more

  pub find-put :
      (j k : String) (v : A) (d : List (String × A))
      → find j (put k v d) ≡ (if k == j then some v else find j d)
  unfolding find put
  find-put j k v [] = refl
  find-put j k v ((i, w) ∷ d) = ground (arith, eq_iff k j, eq_iff i k, eq_iff i j, find-put j k v d)
