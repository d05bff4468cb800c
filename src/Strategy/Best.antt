-- ===== src/Strategy/Best.antt =====
-- supvisors/strategy.py: the first and the last of the candidates that have room are the best ones.
use supvisors.Prelude.{
  ℕ, ◌≡◌, ◌⊎◌, refl, sym, inl, inr, subst, Bool, true, false, List, [], ◌∷◌, Option, none, some,
  Name, ◌==◌, name_iff, name_self, Bool-cases, Option-cases, In, here, there, arith, if◌then◌else◌,
}
use supvisors.Prelude.Dict.{lookup}
use supvisors.Prelude.Dict.Values.{IsDict}
use supvisors.Prelude.Sorting.{sorted, IsSorted, sorted-IsSorted}
use supvisors.Types.Strategies.{
  StartingStrategies, config, less_loaded, most_loaded, local, less_loaded_node, most_loaded_node,
}
use supvisors.Strategy.Loads.{LoadingValidity}
use supvisors.Strategy.Starting.{
  Loaded, valid_entries, pair_le, by_instance, by_node, sort_valid_by_instance_load,
  sort_valid_by_node_load, first, last, choose,
}
use supvisors.Strategy.Choice.{
  has_room, applies, prefers, beats, IsChoice, Report, Lists, valid_entries-Lists, sorted-Lists,
}

room-cases :
    (o : Option LoadingValidity)
    → (has_room o ≡ false) ⊎ ((n : ℕ) × (l : ℕ) × (o ≡ some (true, n, l)))
room-cases none = inl refl
room-cases (some (false, n, l)) = inl refl
room-cases (some (true, n, l)) = inr (n, l, refl)

beats_full :
    (strategy : StartingStrategies) (n l : ℕ) (o : Option LoadingValidity)
    → has_room o ≡ false
    → beats strategy n l o ≡ true
beats_full strategy n l none e = refl
beats_full strategy n l (some (false, n', l')) e = refl
beats_full strategy n l (some (true, n', l')) e = absurd (ground arith)

module _ (strategy : StartingStrategies) (h : Option Name) (d : Report) where
  nothing_left : Lists d [] → IsChoice strategy h (λ k. lookup k d) none
  nothing_left l j = elim (room-cases (lookup j d)) [
    | inl e ↦ ground (arith, e)
    | inr (n, m, e) ↦ elim (l.full (j, n, m) e) [ ]
  ]

  best_of :
      (x : Loaded) (xs : List Loaded)
      → Lists d xs
      → ((y : Loaded) → In y xs → prefers strategy x.1 x.2 y.1 y.2 ≡ true)
      → (j : Name) → beats strategy x.1 x.2 (lookup j d) ≡ true
  best_of x xs l p j = elim (room-cases (lookup j d)) [
    | inl e ↦ beats_full strategy x.1 x.2 (lookup j d) e
    | inr (n', l', e) ↦ rw e (p (j, n', l') (l.full (j, n', l') e))
  ]

  module _ (always : (k : Name) → applies strategy h k ≡ true) where
    first-IsChoice :
        (xs : List Loaded)
        → Lists d xs
        → ((x : Loaded) (rest : List Loaded)
            → xs ≡ x ∷ rest
            → (y : Loaded) → In y xs
            → prefers strategy x.1 x.2 y.1 y.2 ≡ true)
        → IsChoice strategy h (λ k. lookup k d) (first xs)
    first-IsChoice [] l p = nothing_left l
    first-IsChoice ((k, n, m) ∷ rest) l p = record {
      node = n;
      load = m;
      reported = l.listed (k, n, m) (here refl);
      applied = always k;
      best = best_of (k, n, m) _ l (p (k, n, m) rest refl);
    }

-- The last element.
abbrev last_of : Loaded → List Loaded → Loaded
last_of x [] = x
last_of x (y ∷ ys) = last_of y ys

last-last_of : (x : Loaded) (xs : List Loaded) → last (x ∷ xs) ≡ some (last_of x xs).0
last-last_of x [] = refl
last-last_of x (y ∷ ys) = last-last_of y ys

last_of-In : (x : Loaded) (xs : List Loaded) → In (last_of x xs) (x ∷ xs)
last_of-In x [] = here refl
last_of-In x (y ∷ ys) = there (last_of-In y ys)

last_of-le :
    (le : Loaded → Loaded → Bool) (refl_le : (x y : Loaded) → x ≡ y → le x y ≡ true) (x : Loaded)
    (xs : List Loaded)
    → IsSorted le (x ∷ xs)
    → (y : Loaded) → In y (x ∷ xs)
    → le y (last_of x xs) ≡ true
last_of-le le refl_le x [] s y (here q) = refl_le y x (sym q)
last_of-le le refl_le x [] s y (there i) = elim i [ ]
last_of-le le refl_le x (z ∷ zs) s y (here q) =
    subst (λ w. le w (last_of z zs) ≡ true) q (s.0 (last_of z zs) (last_of-In z zs))
last_of-le le refl_le x (z ∷ zs) s y (there i) = last_of-le le refl_le z zs s.1 y i

module _ (le : Loaded → Loaded → Bool) where
  -- Both orders on loads are of this kind.
  record IsOrder : Type 0 where
    total : (x y : Loaded) → (le x y ≡ true) ⊎ (le y x ≡ true)
    trans : (x y z : Loaded) → le x y ≡ true → le y z ≡ true → le x z ≡ true
    refl_le : (x y : Loaded) → x ≡ y → le x y ≡ true

pair_total : (a b c d : ℕ) → (pair_le a b c d ≡ true) ⊎ (pair_le c d a b ≡ true)
pair_total a b c d = ground arith

pair_trans :
    (a b c d e f : ℕ) → pair_le a b c d ≡ true → pair_le c d e f ≡ true → pair_le a b e f ≡ true
pair_trans a b c d e f h k = ground arith

pair_refl : (a b : ℕ) → pair_le a b a b ≡ true
pair_refl a b = ground arith

by_instance-IsOrder : IsOrder by_instance
by_instance-IsOrder = record {
  total = λ x y. pair_total x.2 x.1 y.2 y.1;
  trans = λ x y z. pair_trans x.2 x.1 y.2 y.1 z.2 z.1;
  refl_le = λ x y e. subst (λ z. by_instance x z ≡ true) e (pair_refl x.2 x.1);
}

by_node-IsOrder : IsOrder by_node
by_node-IsOrder = record {
  total = λ x y. pair_total x.1 x.2 y.1 y.2;
  trans = λ x y z. pair_trans x.1 x.2 y.1 y.2 z.1 z.2;
  refl_le = λ x y e. subst (λ z. by_node x z ≡ true) e (pair_refl x.1 x.2);
}

module _ (strategy : StartingStrategies) (h : Option Name) (d : Report)
    (always : (k : Name) → applies strategy h k ≡ true) (le : Loaded → Loaded → Bool)
    (o : IsOrder le) (u : IsDict d) where
  least-IsChoice :
      ((x y : Loaded) → le x y ≡ true → prefers strategy x.1 x.2 y.1 y.2 ≡ true)
      → IsChoice strategy h (λ k. lookup k d) (first (sorted le (valid_entries d)))
  least-IsChoice p =
      first-IsChoice strategy h d always (sorted le (valid_entries d)) (sorted-Lists le d u)
        (λ x rest e y i. p x y (before x rest e y i))
    where
      before :
          (x : Loaded) (rest : List Loaded)
          → sorted le (valid_entries d) ≡ x ∷ rest
          → (y : Loaded) → In y (sorted le (valid_entries d))
          → le x y ≡ true
      before x rest e y i =
          let s =
            subst (IsSorted le) e
              (sorted-IsSorted le o.total o.trans o.refl_le (valid_entries d)) in
          elim (subst (λ xs. In y xs) e i) [ here q ↦ o.refl_le x y q | there j ↦ s.0 y j ]

  greatest_of :
      (xs : List Loaded)
      → Lists d xs
      → IsSorted le xs
      → ((x y : Loaded) → le y x ≡ true → prefers strategy x.1 x.2 y.1 y.2 ≡ true)
      → IsChoice strategy h (λ k. lookup k d) (last xs)
  greatest_of [] l s p = nothing_left strategy h d l
  greatest_of (x ∷ xs) l s p =
      subst (IsChoice strategy h (λ k. lookup k d)) (sym (last-last_of x xs)) (record {
        node = (last_of x xs).1;
        load = (last_of x xs).2;
        reported = l.listed (last_of x xs) (last_of-In x xs);
        applied = always (last_of x xs).0;
        best =
            best_of strategy h d (last_of x xs) (x ∷ xs) l
              (λ y i. p (last_of x xs) y (last_of-le le o.refl_le x xs s y i));
      })

  greatest-IsChoice :
      ((x y : Loaded) → le y x ≡ true → prefers strategy x.1 x.2 y.1 y.2 ≡ true)
      → IsChoice strategy h (λ k. lookup k d) (last (sorted le (valid_entries d)))
  greatest-IsChoice p =
      greatest_of (sorted le (valid_entries d)) (sorted-Lists le d u)
        (sorted-IsSorted le o.total o.trans o.refl_le (valid_entries d)) p

local-IsChoice :
    (k : Name) (d : Report) (v : LoadingValidity)
    → lookup k d ≡ some v
    → IsChoice local (some k) (λ j. lookup j d) (if v.0 then some k else none)
local-IsChoice k d (true, n, l) e = record {
  node = n;
  load = l;
  reported = e;
  applied = name_self k;
  best = λ j. elim (room-cases (lookup j d)) [
    | inl q ↦ beats_full local n l (lookup j d) q
    | inr (n', l', q) ↦ rw q refl
  ];
}
local-IsChoice k d (false, n, l) e = λ j. elim (Bool-cases (k == j)) [
  | inl q ↦ rw q (subst (λ i. has_room (lookup i d) ≡ false) ((name_iff k j).0 q) (rw e refl))
  | inr q ↦ rw q refl
]

-- Whether the report has an entry for the local instance, where the strategy asks for it.
abbrev pub is_reported : StartingStrategies → Option Name → Report → Bool
is_reported local none d = false
is_reported local (some k) d = elim (lookup k d) [ none ↦ false | some v ↦ true ]
is_reported _ h d = true

-- `choose` returns something, and that is a choice.
pub choose-IsChoice :
    (strategy : StartingStrategies) (h : Option Name) (d : Report)
    → IsDict d
    → is_reported strategy h d ≡ true
    → (r : Option Name) × (choose strategy h d ≡ some r) × IsChoice strategy h (λ k. lookup k d) r
unfolding choose sort_valid_by_instance_load sort_valid_by_node_load
choose-IsChoice config h d u q = (
  first (valid_entries d),
  refl,
  first-IsChoice config h d (λ k. refl) (valid_entries d) (valid_entries-Lists d u)
      (λ x rest e y i. refl),
)
choose-IsChoice less_loaded h d u q = (
  _,
  refl,
  least-IsChoice less_loaded h d (λ k. refl) by_instance by_instance-IsOrder u (λ x y p. p),
)
choose-IsChoice most_loaded h d u q = (
  _,
  refl,
  greatest-IsChoice most_loaded h d (λ k. refl) by_instance by_instance-IsOrder u (λ x y p. p),
)
choose-IsChoice less_loaded_node h d u q = (
  _,
  refl,
  least-IsChoice less_loaded_node h d (λ k. refl) by_node by_node-IsOrder u (λ x y p. p),
)
choose-IsChoice most_loaded_node h d u q = (
  _,
  refl,
  greatest-IsChoice most_loaded_node h d (λ k. refl) by_node by_node-IsOrder u (λ x y p. p),
)
choose-IsChoice local none d u q = absurd (ground arith)
choose-IsChoice local (some k) d u q = elim (Option-cases (lookup k d)) [
  | inl e ↦ absurd (ground (arith, (rw (e, is_reported) at q)))
  | inr (v, e) ↦ (if v.0 then some k else none, rw (e, choose) refl, local-IsChoice k d v e)
]
