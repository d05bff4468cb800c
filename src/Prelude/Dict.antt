-- ===== src/Prelude/Dict.antt =====
-- Python's `dict` with names for keys: an association list in insertion order. A key that is there
-- keeps its place when it is written again.
pub mod Values
use mathlib.Core.Path.{◌≡◌, refl}
use mathlib.Core.Logic.{inl, inr}
use mathlib.Core.Bool.{Bool, true, false}
use mathlib.Core.Option.{Option, none, some}
use mathlib.Core.List.{List, [], ◌∷◌, map}
use native.Mathlib.Omega.{arith}
use supvisors.Prelude.Tests.{Name, ◌==◌, if◌then◌else◌, name_iff, name_self, Bool-cases}
use supvisors.Prelude.Lists.{In, here, there}

module _ {ℓ} where
  abbrev pub Dict : Type ℓ → Type ℓ
  Dict V = List (Name × V)

module _ {ℓ} {V : Type ℓ} where
  unfoldable pub lookup : Name → Dict V → Option V
  lookup k [] = none
  lookup k ((j, v) ∷ d) = if j == k then some v else lookup k d

  unfoldable pub insert : Name → V → Dict V → Dict V
  insert k v [] = (k, v) ∷ []
  insert k v ((j, w) ∷ d) = if j == k then (k, v) ∷ d else (j, w) ∷ insert k v d

  unfoldable pub delete : Name → Dict V → Dict V
  delete k [] = []
  delete k ((j, w) ∷ d) = if j == k then delete k d else (j, w) ∷ delete k d

  unfoldable pub keys : Dict V → List Name
  keys [] = []
  keys ((j, w) ∷ d) = j ∷ keys d

  unfoldable pub values : Dict V → List V
  values [] = []
  values ((j, w) ∷ d) = w ∷ values d

  pub lookup-insert :
      (k j : Name) (v : V) (d : Dict V)
      → lookup j (insert k v d) ≡ (if k == j then some v else lookup j d)
  unfolding lookup insert
  lookup-insert k j v [] = refl
  lookup-insert k j v ((i, w) ∷ d) =
      ground (arith, name_iff k j, name_iff i k, name_iff i j, lookup-insert k j v d)

  pub lookup-delete :
      (k j : Name) (d : Dict V) → lookup j (delete k d) ≡ (if k == j then none else lookup j d)
  unfolding lookup delete
  lookup-delete k j [] = ground arith
  lookup-delete k j ((i, w) ∷ d) =
      ground (arith, name_iff k j, name_iff i k, name_iff i j, lookup-delete k j d)

  pub In-keys : (k : Name) (d : Dict V) {v : V} → lookup k d ≡ some v → In k (keys d)
  unfolding lookup keys
  In-keys k [] h = absurd (ground arith)
  In-keys k ((j, w) ∷ d) h = elim (Bool-cases (j == k)) [
    | inl e ↦ here ((name_iff j k).0 e)
    | inr e ↦ there (In-keys k d (rw e at h))
  ]
