-- ===== src/Prelude/NameSet.antt =====
-- Python's `set` of names: a list that `add` keeps free of repetitions.
use mathlib.Core.Bool.{Bool, true, false, ◌&&◌, ◌||◌}
use mathlib.Core.List.{List, [], ◌∷◌, ◌++◌}
use mathlib.Core.Path.{◌≡◌, refl}
use mathlib.Core.Logic.{◌↔◌, inl, inr}
use native.Mathlib.Omega.{arith}
use supvisors.Prelude.Tests.{Name, ◌==◌, if◌then◌else◌, name_iff, name_self, Bool-cases}
use supvisors.Prelude.Lists.{In, here, there}

abbrev pub NameSet : Type 0
NameSet = List Name

-- `k in s`
unfoldable pub contains : Name → NameSet → Bool
contains k [] = false
contains k (j ∷ s) = if j == k then true else contains k s

unfoldable pub add : Name → NameSet → NameSet
unfolding contains
add k s = if contains k s then s else k ∷ s

unfoldable pub discard : Name → NameSet → NameSet
discard k [] = []
discard k (j ∷ s) = if j == k then discard k s else j ∷ discard k s

-- `set(names)`
unfoldable pub of_list : List Name → NameSet
unfolding add
of_list [] = []
of_list (j ∷ l) = add j (of_list l)

unfoldable pub issubset : NameSet → NameSet → Bool
unfolding contains
issubset [] t = true
issubset (j ∷ s) t = contains j t && issubset s t

-- `s == t` on sets
unfoldable pub same : NameSet → NameSet → Bool
unfolding issubset
same s t = issubset s t && issubset t s

pub contains-add :
    (k j : Name) (s : NameSet) → contains j (add k s) ≡ (if k == j then true else contains j s)
unfolding contains add
contains-add k j s = elim (Bool-cases (contains k s)) [
  | inl e ↦ rw e (ground (arith, name_iff k j))
  | inr e ↦ rw e refl
]

pub contains-discard :
    (k j : Name) (s : NameSet) → contains j (discard k s) ≡ (if k == j then false else contains j s)
unfolding contains discard
contains-discard k j [] = ground arith
contains-discard k j (i ∷ s) =
    ground (arith, name_iff k j, name_iff i k, name_iff i j, contains-discard k j s)

pub contains-of_list : (k : Name) (l : List Name) → contains k (of_list l) ≡ contains k l
unfolding of_list contains
contains-of_list k [] = refl
contains-of_list k (j ∷ l) = rw contains-add (ground (arith, contains-of_list k l))

pub contains-append :
    (k : Name) (xs ys : List Name) → contains k (xs ++ ys) ≡ (contains k xs || contains k ys)
unfolding contains
contains-append k [] ys = refl
contains-append k (x ∷ xs) ys = ground (arith, contains-append k xs ys)

pub In-contains : {k : Name} {s : NameSet} → In k s → contains k s ≡ true
unfolding contains
In-contains {k} (here {x = x} e) = ground (arith, name_iff x k)
In-contains {k} (there {x = x} i) = ground (arith, In-contains i)

pub contains-In : (k : Name) (s : NameSet) → contains k s ≡ true → In k s
unfolding contains
contains-In k [] h = absurd (ground arith)
contains-In k (j ∷ s) h = elim (Bool-cases (j == k)) [
  | inl e ↦ here ((name_iff j k).0 e)
  | inr e ↦ there (contains-In k s (rw e at h))
]

pub contains-of_issubset :
    (k : Name) (s t : NameSet) → issubset s t ≡ true → contains k s ≡ true → contains k t ≡ true
unfolding issubset contains
contains-of_issubset k [] t h c = absurd (ground arith)
contains-of_issubset k (j ∷ s) t h c = elim (Bool-cases (j == k)) [
  | inl e ↦ moved ((name_iff j k).0 e) (ground arith)
  | inr e ↦ contains-of_issubset k s t (ground arith) (rw e at c)
]
  where
    moved : j ≡ k → contains j t ≡ true → contains k t ≡ true
    moved q m = rw q at m

pub issubset-of_contains :
    (s t : NameSet) → ((k : Name) → contains k s ≡ true → contains k t ≡ true) → issubset s t ≡ true
unfolding issubset contains
issubset-of_contains [] t h = refl
issubset-of_contains (j ∷ s) t h = ground (arith, first, issubset-of_contains s t rest)
  where
    first : contains j t ≡ true
    first = h j (rw name_self refl)

    rest : (k : Name) → contains k s ≡ true → contains k t ≡ true
    rest k c = h k (ground arith)

-- Two sets are equal when they have the same members.
pub same_iff : (s t : NameSet) → (same s t ≡ true) ↔ ((k : Name) → contains k s ≡ contains k t)
unfolding same
same_iff s t = (forward, backward)
  where
    forward : same s t ≡ true → (k : Name) → contains k s ≡ contains k t
    forward h k = ground (arith, contains-of_issubset k s t, contains-of_issubset k t s)

    backward : ((k : Name) → contains k s ≡ contains k t) → same s t ≡ true
    backward h = ground (
      arith,
      issubset-of_contains s t (λ k c. ground (arith, h k)),
      issubset-of_contains t s (λ k c. ground (arith, h k)),
    )
