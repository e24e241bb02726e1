-- ===== src/Prelude/Dict.antt =====
-- Dictionaries whose keys are texts, as association lists: a key has one entry.
use Prim.Native.String.{String}
use text.Mathlib.Text.{◌==◌ as str_eq}
use text.Mathlib.TextEquality.{eq_iff}
use mathlib.Core.Path.{◌≡◌, refl}
use mathlib.Core.Option.{Option, none, some}
use mathlib.Core.List.{List, [], ◌∷◌}
use native.Mathlib.Omega.{arith}
use flannel_rust.Prelude.Tests.{if◌then◌else◌}

pub str_eq_sym : (s t : String) → str_eq s t ≡ str_eq t s
str_eq_sym s t = ground (arith, eq_iff s t, eq_iff t s)

module _ {ℓ} {V : Type ℓ} where
  unfoldable pub lookup : List (String × V) → String → Option V
  lookup [] k = none
  lookup ((j, v) ∷ m) k = if str_eq j k then some v else lookup m k

  unfoldable pub insert : List (String × V) → String → V → List (String × V)
  insert [] k v = (k, v) ∷ []
  insert ((j, w) ∷ m) k v = if str_eq j k then (j, v) ∷ m else (j, w) ∷ insert m k v

  unfoldable pub delete : List (String × V) → String → List (String × V)
  delete [] k = []
  delete ((j, v) ∷ m) k = if str_eq j k then delete m k else (j, v) ∷ delete m k

  pub lookup-insert :
      (m : List (String × V)) (k j : String) (v : V)
      → lookup (insert m k v) j ≡ (if str_eq k j then some v else lookup m j)
  unfolding lookup insert
  lookup-insert [] k j v = refl
  lookup-insert ((i, w) ∷ m) k j v =
      ground (arith, eq_iff k j, eq_iff i k, eq_iff i j, lookup-insert m k j v)

  pub lookup-delete :
      (m : List (String × V)) (k j : String)
      → lookup (delete m k) j ≡ (if str_eq k j then none else lookup m j)
  unfolding lookup delete
  lookup-delete [] k j = ground arith
  lookup-delete ((i, w) ∷ m) k j =
      ground (arith, eq_iff k j, eq_iff i k, eq_iff i j, lookup-delete m k j)
