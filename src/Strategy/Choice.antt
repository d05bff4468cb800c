-- ===== src/Strategy/Choice.antt =====
-- supvisors/strategy.py: what a starting strategy makes of a loading report.
use supvisors.Prelude.{
  ℕ, ◌≡◌, refl, inl, inr, ap, subst, Bool, true, false, ◌&&◌, List, [], ◌∷◌, Option, none, some,
  Name, ◌==◌, name_iff, name_self, Bool-cases, In, here, there, arith, if◌then◌else◌,
}
use supvisors.Prelude.Dict.{Dict, lookup}
use supvisors.Prelude.Dict.Values.{IsDict}
use supvisors.Prelude.Sorting.{sorted, sorted-In, In-sorted}
use supvisors.Types.Strategies.{
  StartingStrategies, config, less_loaded, most_loaded, local, less_loaded_node, most_loaded_node,
}
use supvisors.Strategy.Loads.{LoadingValidity}
use supvisors.Strategy.Starting.{Loaded, valid_entries, pair_le}

-- Whether the node of a candidate has room.
abbrev pub has_room : Option LoadingValidity → Bool
has_room none = false
has_room (some (valid, node, load)) = valid

-- LocalStrategy considers the local instance only.
abbrev pub applies : StartingStrategies → Option Name → Name → Bool
applies local none k = false
applies local (some h) k = h == k
applies _ h k = true

-- Whether these loads are as good as the others, for the strategies that compare loads.
abbrev pub prefers : StartingStrategies → (node load node' load' : ℕ) → Bool
prefers config n l n' l' = true
prefers local n l n' l' = true
prefers less_loaded n l n' l' = pair_le l n l' n'
prefers most_loaded n l n' l' = pair_le l' n' l n
prefers less_loaded_node n l n' l' = pair_le n l n' l'
prefers most_loaded_node n l n' l' = pair_le n' l' n l

abbrev pub beats : StartingStrategies → (node load : ℕ) → Option LoadingValidity → Bool
beats strategy n l none = true
beats strategy n l (some (valid, n', l')) = if valid then prefers strategy n l n' l' else true

-- A candidate is chosen: its node has room, and no other candidate is better.
pub record Chosen (strategy : StartingStrategies) (local_identifier : Option Name)
    (report : Name → Option LoadingValidity) (k : Name) : Type 0 where
  pub node : ℕ
  pub load : ℕ
  pub reported : report k ≡ some (true, node, load)
  pub applied : applies strategy local_identifier k ≡ true
  pub best : (j : Name) → beats strategy node load (report j) ≡ true

-- Without a choice, no candidate that the strategy considers has room.
abbrev pub IsChoice :
    StartingStrategies → Option Name → (Name → Option LoadingValidity) → Option Name → Type 0
IsChoice strategy h report none = (j : Name) → (applies strategy h j && has_room (report j)) ≡ false
IsChoice strategy h report (some k) = Chosen strategy h report k

abbrev pub Report : Type 0
Report = Dict LoadingValidity

abbrev entry : Bool → Loaded → List Loaded → List Loaded
entry valid x xs = if valid then x ∷ xs else xs

entry_kept :
    (valid : Bool) (x : Loaded) {a : Loaded} {xs : List Loaded} → In a xs → In a (entry valid x xs)
entry_kept true x i = there i
entry_kept false x i = i

entry_found :
    (valid : Bool) (j k : Name) (n' l' n l : ℕ) (xs : List Loaded)
    → j ≡ k
    → Path (Option LoadingValidity) (some (valid, n', l')) (some (true, n, l))
    → In (k, n, l) (entry valid (j, n', l') xs)
entry_found valid j k n' l' n l xs e q =
    let v : valid ≡ true = ground (arith, q) in rw v (here (ground (arith, e, q)))

valid-In :
    (d : Report) (k : Name) (n l : ℕ)
    → lookup k d ≡ some (true, n, l)
    → In (k, n, l) (valid_entries d)
unfolding lookup valid_entries
valid-In [] k n l h = absurd (ground arith)
valid-In ((j, (valid, n', l')) ∷ d) k n l h = elim (Bool-cases (j == k)) [
  | inl e ↦ entry_found valid j k n' l' n l (valid_entries d) ((name_iff j k).0 e) (rw e at h)
  | inr e ↦ entry_kept valid (j, n', l') (valid-In d k n l (rw e at h))
]

abbrev pub FoundIn : Report → Loaded → Type 0
FoundIn d x = lookup x.0 d ≡ some (true, x.1, x.2)

shadowed :
    (j : Name) (v : LoadingValidity) (d : Report) (x : Loaded)
    → lookup j d ≡ none
    → FoundIn d x
    → FoundIn ((j, v) ∷ d) x
unfolding lookup
shadowed j v d x h f = ground (arith, name_iff j x.0, ap (λ i. lookup i d), h, f)

In-valid : (d : Report) (x : Loaded) → IsDict d → In x (valid_entries d) → FoundIn d x
unfolding lookup valid_entries
In-valid [] x u i = elim i [ ]
In-valid ((j, (true, n', l')) ∷ d) x u (here q) =
    subst (λ y. FoundIn ((j, (true, n', l')) ∷ d) y) q (rw name_self refl)
In-valid ((j, (true, n', l')) ∷ d) x u (there i) = shadowed j _ d x u.0 (In-valid d x u.1 i)
In-valid ((j, (false, n', l')) ∷ d) x u i = shadowed j _ d x u.0 (In-valid d x u.1 i)

-- A list of exactly the candidates that have room.
pub record Lists (d : Report) (xs : List Loaded) : Type 0 where
  pub listed : (x : Loaded) → In x xs → FoundIn d x
  pub full : (x : Loaded) → FoundIn d x → In x xs

pub valid_entries-Lists : (d : Report) → IsDict d → Lists d (valid_entries d)
valid_entries-Lists d u = record {
  listed = λ x i. In-valid d x u i;
  full = λ x f. valid-In d x.0 x.1 x.2 f;
}

pub sorted-Lists :
    (le : Loaded → Loaded → Bool) (d : Report) → IsDict d → Lists d (sorted le (valid_entries d))
sorted-Lists le d u =
    let l = valid_entries-Lists d u in
    record {
      listed = λ x i. l.listed x (In-sorted le (valid_entries d) i);
      full = λ x f. sorted-In le (valid_entries d) (l.full x f);
    }
