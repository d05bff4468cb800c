-- ===== src/Prelude/Dict/Values.antt =====
-- A `dict` has each key once; then its values are what `lookup` finds.
use mathlib.Core.Path.{◌≡◌, refl, ap, subst}
use mathlib.Core.Logic.{inl, inr}
use mathlib.Core.Bool.{Bool, true}
use mathlib.Core.Option.{none, some}
use mathlib.Core.List.{[], ◌∷◌}
use native.Mathlib.Omega.{arith}
use supvisors.Prelude.Tests.{Name, ◌==◌, if◌then◌else◌, name_iff, name_self, Bool-cases}
use supvisors.Prelude.Lists.{any}
use supvisors.Prelude.Dict.{Dict, lookup, insert, delete, values, lookup-insert, lookup-delete}

module _ {ℓ} {V : Type ℓ} where
  abbrev pub IsDict : Dict V → Type ℓ
  IsDict [] = Unit
  IsDict ((k, v) ∷ d) = (lookup k d ≡ none) × IsDict d

  pub insert-IsDict : (k : Name) (v : V) (d : Dict V) → IsDict d → IsDict (insert k v d)
  unfolding insert
  insert-IsDict k v [] h = (unfold lookup in refl, tt)
  insert-IsDict k v ((j, w) ∷ d) h = elim (Bool-cases (j == k)) [
    | inl e ↦ rw e (subst (λ n. IsDict ((n, v) ∷ d)) ((name_iff j k).0 e) h)
    | inr e ↦ rw e (
      ground (arith, lookup-insert k j v d, name_iff k j, name_iff j k, h.0),
      insert-IsDict k v d h.1,
    )
  ]

  pub delete-IsDict : (k : Name) (d : Dict V) → IsDict d → IsDict (delete k d)
  unfolding delete
  delete-IsDict k [] h = tt
  delete-IsDict k ((j, w) ∷ d) h = elim (Bool-cases (j == k)) [
    | inl e ↦ rw e (delete-IsDict k d h.1)
    | inr e ↦ rw e (
      ground (arith, lookup-delete k j d, name_iff k j, name_iff j k, h.0),
      delete-IsDict k d h.1,
    )
  ]

  pub any-values :
      (f : V → Bool) (k : Name) (d : Dict V) {v : V}
      → lookup k d ≡ some v
      → f v ≡ true
      → any f (values d) ≡ true
  unfolding lookup values
  any-values f k [] h t = absurd (ground arith)
  any-values f k ((j, w) ∷ d) {v} h t = elim (Bool-cases (j == k)) [
    | inl e ↦ found (rw e at h)
    | inr e ↦ ground (arith, any-values f k d {v = v} (rw e at h) t)
  ]
    where
      found : some w ≡ some v → any f (values ((j, w) ∷ d)) ≡ true
      found q = let same : w ≡ v = ground arith in rw same (rw t refl)

  pub values-any :
      (f : V → Bool) (d : Dict V)
      → IsDict d
      → any f (values d) ≡ true
      → (k : Name) × (v : V) × (lookup k d ≡ some v) × (f v ≡ true)
  unfolding lookup values
  values-any f [] h t = absurd (ground arith)
  values-any f ((j, w) ∷ d) h t = elim (Bool-cases (f w)) [
    | inl e ↦ (j, w, rw name_self refl, e)
    | inr e ↦ let (k, v, q, r) = values-any f d h.1 (ground arith) in (k, v, shadowed k v q, r)
  ]
    where
      shadowed :
          (k : Name) (v : V)
          → lookup k d ≡ some v
          → (if j == k then some w else lookup k d) ≡ some v
      shadowed k v q = elim (Bool-cases (j == k)) [
        | inl e ↦
            absurd (
              ground (arith, h.0, q, (name_iff j k).0 e, ap (λ n. lookup n d) ((name_iff j k).0 e)))
        | inr e ↦ rw e q
      ]
