-- ===== src/Prelude/Sorting.antt =====
-- Python's `sorted`, which is stable, by an order that is given as a test.
use mathlib.Core.Path.{◌≡◌}
use mathlib.Core.Logic.{◌⊎◌, inl, inr}
use mathlib.Core.Bool.{Bool, true, false}
use mathlib.Core.List.{List, [], ◌∷◌}
use native.Mathlib.Omega.{arith}
use supvisors.Prelude.Tests.{if◌then◌else◌, Bool-cases}
use supvisors.Prelude.Lists.{In, here, there}

module _ {ℓ} {A : Type ℓ} (le : A → A → Bool) where
  unfoldable pub place : A → List A → List A
  place x [] = x ∷ []
  place x (y ∷ ys) = if le x y then x ∷ y ∷ ys else y ∷ place x ys

  unfoldable pub sorted : List A → List A
  unfolding place
  sorted [] = []
  sorted (x ∷ xs) = place x (sorted xs)

  In-place : {a x : A} (ys : List A) → In a (place x ys) → In a (x ∷ ys)
  unfolding place
  In-place [] i = i
  In-place {a} {x} (y ∷ ys) i = elim (Bool-cases (le x y)) [
    | inl e ↦ rw e at i
    | inr e ↦ behind (λ j. In-place ys j) (rw e at i)
  ]
    where
      behind : (In a (place x ys) → In a (x ∷ ys)) → In a (y ∷ place x ys) → In a (x ∷ y ∷ ys)
      behind f (here q) = there (here q)
      behind f (there j) = elim (f j) [ here q ↦ here q | there k ↦ there (there k) ]

  -- What is sorted was there before.
  pub In-sorted : {a : A} (xs : List A) → In a (sorted xs) → In a xs
  unfolding sorted
  In-sorted [] i = i
  In-sorted (x ∷ xs) i = elim (In-place (sorted xs) i) [
    | here q ↦ here q
    | there j ↦ there (In-sorted xs j)
  ]

  place-In : {a x : A} (ys : List A) → In a (x ∷ ys) → In a (place x ys)
  unfolding place
  place-In [] i = i
  place-In {a} {x} (y ∷ ys) i = elim (Bool-cases (le x y)) [
    | inl e ↦ rw e i
    | inr e ↦ rw e (behind (λ j. place-In ys j) i)
  ]
    where
      behind : (In a (x ∷ ys) → In a (place x ys)) → In a (x ∷ y ∷ ys) → In a (y ∷ place x ys)
      behind f (here q) = there (f (here q))
      behind f (there (here q)) = here q
      behind f (there (there k)) = there (f (there k))

  -- Nothing is lost.
  pub sorted-In : {a : A} (xs : List A) → In a xs → In a (sorted xs)
  unfolding sorted
  sorted-In [] i = elim i [ ]
  sorted-In (x ∷ xs) (here q) = place-In (sorted xs) (here q)
  sorted-In (x ∷ xs) (there j) = place-In (sorted xs) (there (sorted-In xs j))

  -- Each element stands before none that is smaller.
  abbrev pub IsSorted : List A → Type ℓ
  IsSorted [] = Unit
  IsSorted (x ∷ xs) = ((y : A) → In y xs → le x y ≡ true) × IsSorted xs

  module _ (total : (x y : A) → (le x y ≡ true) ⊎ (le y x ≡ true))
      (trans : (x y z : A) → le x y ≡ true → le y z ≡ true → le x z ≡ true)
      (refl_le : (x y : A) → x ≡ y → le x y ≡ true) where
    place-IsSorted : (x : A) (ys : List A) → IsSorted ys → IsSorted (place x ys)
    unfolding place
    place-IsSorted x [] h = ((λ y i. elim i [ ]), tt)
    place-IsSorted x (y ∷ ys) h = elim (Bool-cases (le x y)) [
      | inl e ↦ rw e (first e, h)
      | inr e ↦ rw e (kept e, place-IsSorted x ys h.1)
    ]
      where
        first : le x y ≡ true → (z : A) → In z (y ∷ ys) → le x z ≡ true
        first e z (here q) = trans x y z e (refl_le y z q)
        first e z (there i) = trans x y z e (h.0 z i)

        before : le x y ≡ false → le y x ≡ true
        before e = ground (arith, total x y, e)

        kept : le x y ≡ false → (z : A) → In z (place x ys) → le y z ≡ true
        kept e z i = elim (In-place ys i) [
          | here q ↦ trans y x z (before e) (refl_le x z q)
          | there j ↦ h.0 z j
        ]

    pub sorted-IsSorted : (xs : List A) → IsSorted (sorted xs)
    unfolding sorted
    sorted-IsSorted [] = tt
    sorted-IsSorted (x ∷ xs) = place-IsSorted x (sorted xs) (sorted-IsSorted xs)
