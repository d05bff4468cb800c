-- ===== src/Prelude/Lists.antt =====
-- Lists: Boolean searches, filters by a Boolean test, and predicates by recursion.
use Prim.Native.Nat.{ℕ, suc}
use mathlib.Core.Path.{◌≡◌, refl, ap}
use mathlib.Core.Logic.{inl, inr}
use mathlib.Core.Bool.{Bool, true, false, ◌&&◌, ◌||◌}
use mathlib.Core.List.{List, [], ◌∷◌}
use native.Mathlib.Omega.{arith}
use supvisors.Prelude.Tests.{if◌then◌else◌, Bool-cases}

module _ {ℓ} {A : Type ℓ} where
  abbrev pub length : List A → ℕ
  length [] = 0
  length (x ∷ xs) = suc (length xs)

  -- Python's `any` and `all` over a generator.
  abbrev pub any : (A → Bool) → List A → Bool
  any p [] = false
  any p (x ∷ xs) = p x || any p xs

  abbrev pub all : (A → Bool) → List A → Bool
  all p [] = true
  all p (x ∷ xs) = p x && all p xs

  -- A comprehension with an `if`.
  abbrev pub keep : (A → Bool) → List A → List A
  keep p [] = []
  keep p (x ∷ xs) = if p x then x ∷ keep p xs else keep p xs

  abbrev pub All {κ} : (A → Type κ) → List A → Type κ
  All P [] = Unit
  All P (x ∷ xs) = P x × All P xs

  -- Membership with its position, so that it can be matched.
  pub data In (a : A) : List A → Type ℓ where
    here : {x : A} {xs : List A} → x ≡ a → In a (x ∷ xs)
    there : {x : A} {xs : List A} → In a xs → In a (x ∷ xs)

module _ {ℓ} {A : Type ℓ} where
  pub All-In {κ} :
      {P : A → Type κ} {a : A} {xs : List A}
      → In a xs
      → ((x : A) → x ≡ a → P x → P a)
      → All P xs
      → P a
  All-In (here {x = x} e) move (p, ps) = move x e p
  All-In (there i) move (p, ps) = All-In i move ps

  pub all-In : (p : A → Bool) {a : A} {xs : List A} → all p xs ≡ true → In a xs → p a ≡ true
  all-In p {a} h (here {x = x} {xs = xs} e) = ground (arith, ap p e)
  all-In p h (there {x = x} {xs = xs} i) = all-In p (ground arith) i

  pub all-of_In : (p : A → Bool) (xs : List A) → ((a : A) → In a xs → p a ≡ true) → all p xs ≡ true
  all-of_In p [] h = refl
  all-of_In p (x ∷ xs) h = ground (arith, h x (here refl), all-of_In p xs (λ a i. h a (there i)))

  pub any-of_In : (p : A → Bool) {a : A} {xs : List A} → In a xs → p a ≡ true → any p xs ≡ true
  any-of_In p {a} (here {x = x} {xs = xs} e) h = ground (arith, ap p e)
  any-of_In p (there {x = x} {xs = xs} i) h = ground (arith, any-of_In p i h)

  pub In-of_any : (p : A → Bool) (xs : List A) → any p xs ≡ true → (a : A) × In a xs × (p a ≡ true)
  In-of_any p [] h = absurd (ground arith)
  In-of_any p (x ∷ xs) h = elim (Bool-cases (p x)) [
    | inl e ↦ (x, here refl, e)
    | inr e ↦ let (a, i, q) = In-of_any p xs (ground arith) in (a, there i, q)
  ]

  pub In-keep : (p : A → Bool) {a : A} {xs : List A} → In a xs → p a ≡ true → In a (keep p xs)
  In-keep p {a} (here {x = x} {xs = xs} e) h =
      let q : p x ≡ true = ground (arith, ap p e) in rw q (here e)
  In-keep p {a} (there {x = x} {xs = xs} i) h = elim (Bool-cases (p x)) [
    | inl e ↦ rw e (there (In-keep p i h))
    | inr e ↦ rw e (In-keep p i h)
  ]

  In-keep_head :
      (p : A → Bool) {a x : A} {xs : List A}
      → p x ≡ true
      → (In a (keep p xs) → In a xs × (p a ≡ true))
      → In a (x ∷ keep p xs)
      → In a (x ∷ xs) × (p a ≡ true)
  In-keep_head p e rest (here q) = (here q, rw q at e)
  In-keep_head p e rest (there i) = let (j, q) = rest i in (there j, q)

  pub In-of_keep : (p : A → Bool) {a : A} (xs : List A) → In a (keep p xs) → In a xs × (p a ≡ true)
  In-of_keep p {a} [] i = elim i [ ]
  In-of_keep p {a} (x ∷ xs) i = elim (Bool-cases (p x)) [
    | inl e ↦ In-keep_head p e (λ j. In-of_keep p xs j) (rw e at i)
    | inr e ↦ let (j, q) = In-of_keep p xs (rw e at i) in (there j, q)
  ]
