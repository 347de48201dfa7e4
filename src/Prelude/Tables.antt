-- ===== src/Prelude/Tables.antt =====
-- A Go map keyed by text (`sync.Map`, `map[string]T`, a bolt bucket) as an association list.
use Prim.Native.String.{String}
use mathlib.Core.Path.{◌≡◌}
use mathlib.Core.Option.{Option, none, some}
use mathlib.Core.List.{List, [], ◌∷◌}
use native.Mathlib.Omega.{arith}
use text.Mathlib.Text.{◌==◌ as str_eq}
use text.Mathlib.TextEquality.{eq_iff}
use jonedrive.Prelude.Tests.{if◌then◌else◌}

abbrev pub Table {ℓ} : Type ℓ → Type ℓ
Table V = List (String × V)

module _ {ℓ} {V : Type ℓ} where
  unfoldable pub load : String → Table V → Option V
  load k [] = none
  load k ((i, v) ∷ t) = if str_eq i k then some v else load k t

  -- Replaces the entry of the key where there is one, else adds it at the end.
  unfoldable pub store : String → V → Table V → Table V
  store k v [] = (k, v) ∷ []
  store k v ((i, w) ∷ t) =
      let rest = store k v t in if str_eq i k then (i, v) ∷ t else (i, w) ∷ rest

  unfoldable pub delete : String → Table V → Table V
  delete k [] = []
  delete k ((i, w) ∷ t) = let rest = delete k t in if str_eq i k then rest else (i, w) ∷ rest

  pub load-store :
      (k j : String) (v : V) (t : Table V)
      → load j (store k v t) ≡ (if str_eq k j then some v else load j t)
  unfolding load store
  load-store k j v [] = ground arith
  load-store k j v ((i, w) ∷ t) =
      ground (arith, load-store k j v t, eq_iff i k, eq_iff i j, eq_iff k j)

  pub load-delete :
      (k j : String) (t : Table V) → load j (delete k t) ≡ (if str_eq k j then none else load j t)
  unfolding load delete
  load-delete k j [] = ground arith
  load-delete k j ((i, w) ∷ t) =
      ground (arith, load-delete k j t, eq_iff i k, eq_iff i j, eq_iff k j)

pub ruleset table_laws = (load-store, load-delete)
