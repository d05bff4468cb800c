-- ===== src/Strategy/Conciliation/Kept.antt =====
-- supvisors/strategy.py: which instance keeps a process that runs on several.
use supvisors.Prelude.{
  ◌≡◌, ◌⊎◌, refl, subst, inl, inr, Bool, true, false, not, ◌&&◌, List, [], ◌∷◌, ◌++◌, Option, none,
  some, Name, ◌==◌, name_iff, name_self, Bool-cases, Option-cases, all, All, arith,
}
use supvisors.Prelude.Dict.{Dict, lookup}
use supvisors.Prelude.NameSet.{NameSet, contains, discard, contains-discard}
use supvisors.Prelude.Integers.{ℤ, int_le, int_le_total, int_le_trans}
use supvisors.Process.{ProcessInfo, ProcessStatus}
use supvisors.Process.Rules.{is_set}
use supvisors.Application.{ApplicationStatus}
use supvisors.Types.Strategies.{senicide, infanticide}
use supvisors.Strategy.Failures.{RunningFailureHandler, Command, stopper_stop_process, stopper_next}
use supvisors.Strategy.Conciliation.{Outcome, first_by, keep_one, int_ge, conciliate_conflicts}

abbrev is_some : Option ProcessInfo → Bool
is_some none = false
is_some (some info) = true

-- Whether the uptime is no later in the order than that of an instance, if that is known.
abbrev pub precedes : (ℤ → ℤ → Bool) → ℤ → Option ProcessInfo → Bool
precedes le u none = true
precedes le u (some info) = le u info.uptime

-- Whether a set has two identifiers.
abbrev pub are_several : NameSet → Bool
are_several [] = false
are_several (k ∷ ks) = is_set (discard k ks)

-- A conflict as `conciliate_conflicts` gets it: the process runs on several instances, and each of the instances
-- where it runs has given information on it.
pub record IsConflict (p : ProcessStatus) : Type 0 where
  pub several : are_several p.running_identifiers ≡ true
  pub informed : all (λ k. is_some (lookup k p.info_map)) p.running_identifiers ≡ true

-- The call stops the process wherever it runs, but on one instance that no other one precedes.
pub record KeepsOne (le : ℤ → ℤ → Bool) (p : ProcessStatus) (call : Command) : Type 0 where
  pub saved_identifier : Name
  pub info : ProcessInfo
  pub stopped : List Name
  pub is_stop : call ≡ stopper_stop_process p.namespec (some stopped)
  pub saved : contains saved_identifier p.running_identifiers ≡ true
  pub known : lookup saved_identifier p.info_map ≡ some info
  pub some_stopped : is_set stopped ≡ true
  pub others :
      (k : Name)
      → contains k stopped ≡ (contains k p.running_identifiers && not (saved_identifier == k))
  pub first :
      (k : Name)
      → (contains k p.running_identifiers && not (precedes le info.uptime (lookup k p.info_map)))
        ≡ false

pub data KeepOnes (le : ℤ → ℤ → Bool) : List ProcessStatus → List Command → Type 0 where
  no_conflict : KeepOnes le [] []
  conflict :
      {p : ProcessStatus} {conflicts : List ProcessStatus} {call : Command} {calls : List Command}
      → KeepsOne le p call
      → KeepOnes le conflicts calls
      → KeepOnes le (p ∷ conflicts) (call ∷ calls)

-- An empty list of identifiers would stop the process everywhere.
some_left : (n : Name) (ks : NameSet) → are_several ks ≡ true → is_set (discard n ks) ≡ true
unfolding discard
some_left n [] h = absurd (ground (arith, h))
some_left n (k ∷ ks) h = elim (Bool-cases (k == n)) [
  | inl e ↦ rw e (subst (λ j. is_set (discard j ks) ≡ true) ((name_iff k n).0 e) h)
  | inr e ↦ rw e refl
]

record First (le : ℤ → ℤ → Bool) (d : Dict ProcessInfo) (ks : NameSet) (result : Option (Name × ℤ))
    : Type 0 where
  name : Name
  info : ProcessInfo
  returned : result ≡ some (name, info.uptime)
  member : contains name ks ≡ true
  known : lookup name d ≡ some info
  least : (k : Name) → (contains k ks && not (precedes le info.uptime (lookup k d))) ≡ false

module _ (le : ℤ → ℤ → Bool) (total : (a b : ℤ) → (le a b ≡ true) ⊎ (le b a ≡ true))
    (trans : (a b c : ℤ) → le a b ≡ true → le b c ≡ true → le a c ≡ true) where
  -- An instance that is found precedes itself, under whatever name it is looked up.
  itself :
      (d : Dict ProcessInfo) (k j : Name) (info : ProcessInfo)
      → lookup k d ≡ some info
      → (k == j) ≡ true
      → precedes le info.uptime (lookup j d) ≡ true
  itself d k j info e q =
      subst (λ i. precedes le info.uptime (lookup i d) ≡ true) ((name_iff k j).0 q)
        (rw e (ground (arith, total info.uptime info.uptime)))

  weaken :
      (u v : ℤ) (o : Option ProcessInfo)
      → le u v ≡ true
      → precedes le v o ≡ true
      → precedes le u o ≡ true
  weaken u v none h q = refl
  weaken u v (some info) h q = trans u v info.uptime h q

  first_by-First :
      (d : Dict ProcessInfo) (k : Name) (ks : NameSet)
      → all (λ j. is_some (lookup j d)) (k ∷ ks) ≡ true
      → First le d (k ∷ ks) (first_by le d (k ∷ ks))
  unfolding first_by contains
  first_by-First d k [] h = elim (Option-cases (lookup k d)) [
    | inl e ↦ absurd (ground (arith, (rw e at h)))
    | inr (info, e) ↦ record {
      name = k;
      info = info;
      returned = rw (e, first_by) refl;
      member = rw name_self refl;
      known = e;
      least = λ i. ground (arith, itself d k i info e);
    }
  ]
  first_by-First d k (j ∷ ks) h = elim (Option-cases (lookup k d)) [
    | inl e ↦ absurd (ground (arith, (rw e at h)))
    | inr (info, e) ↦ step info e (first_by-First d j ks (ground (arith, h)))
  ]
    where
      step :
          (info : ProcessInfo)
          → lookup k d ≡ some info
          → First le d (j ∷ ks) (first_by le d (j ∷ ks))
          → First le d (k ∷ j ∷ ks) (first_by le d (k ∷ j ∷ ks))
      step info e f = elim (Bool-cases (le info.uptime f.info.uptime)) [
        | inl q ↦ record {
          name = k;
          info = info;
          returned = rw (e, f.returned, q, first_by) refl;
          member = rw name_self refl;
          known = e;
          least = λ i. ground (
            arith,
            itself d k i info e,
            f.least i,
            weaken info.uptime f.info.uptime (lookup i d) q,
          );
        }
        | inr q ↦ record {
          name = f.name;
          info = f.info;
          returned = rw (e, f.returned, q, first_by) refl;
          member = ground (arith, f.member);
          known = f.known;
          least = λ i. ground (
            arith,
            itself d k i info e,
            f.least i,
            weaken f.info.uptime info.uptime (lookup i d)
                (ground (arith, total info.uptime f.info.uptime, q)),
          );
        }
      ]

  keep_one-KeepOnes :
      (conflicts : List ProcessStatus)
      → All IsConflict conflicts
      → (calls : List Command) × (keep_one le conflicts ≡ some calls) × KeepOnes le conflicts calls
  unfolding keep_one
  keep_one-KeepOnes [] h = ([], refl, no_conflict)
  keep_one-KeepOnes (p ∷ conflicts) h =
      let (calls, e, r) = keep_one-KeepOnes conflicts h.1 in
      let f = found p.running_identifiers h.0.several h.0.informed in
      (
        stopper_stop_process p.namespec (some (discard f.name p.running_identifiers)) ∷ calls,
        rw (f.returned, e, keep_one) refl,
        conflict (kept f) r,
      )
    where
      found :
          (ks : NameSet)
          → are_several ks ≡ true
          → all (λ k. is_some (lookup k p.info_map)) ks ≡ true
          → First le p.info_map ks (first_by le p.info_map ks)
      found [] n i = absurd (ground arith)
      found (k ∷ ks) n i = first_by-First p.info_map k ks i

      kept :
          (f : First le p.info_map p.running_identifiers
            (first_by le p.info_map p.running_identifiers))
          → KeepsOne le p
              (stopper_stop_process p.namespec (some (discard f.name p.running_identifiers)))
      kept f = record {
        saved_identifier = f.name;
        info = f.info;
        stopped = discard f.name p.running_identifiers;
        some_stopped = some_left f.name p.running_identifiers h.0.several;
        is_stop = refl;
        saved = f.member;
        known = f.known;
        others = λ k. ground (arith, contains-discard f.name k p.running_identifiers);
        first = f.least;
      }

-- Both strategies return, and the last of their calls is that of `next`.
pub record Settled (le : ℤ → ℤ → Bool) (conflicts : List ProcessStatus) (h : RunningFailureHandler)
    (result : Option Outcome) : Type 0 where
  pub calls : List Command
  pub returned : result ≡ some (h, calls ++ (stopper_next ∷ []))
  pub keep : KeepOnes le conflicts calls

-- For processes that run on several instances and have information from each of these, senicide
-- and infanticide raise nothing and leave the failure handler as it is. They ask the Stopper to
-- stop each process on all instances where it runs but one, of the lowest uptime for senicide and
-- of the highest for infanticide, in the order of the conflicts, and then call its next.
pub conciliate-Settled :
    (applications : Dict ApplicationStatus) (busy : NameSet) (conflicts : List ProcessStatus)
    (h : RunningFailureHandler)
    → All IsConflict conflicts
    → Settled int_le conflicts h (conciliate_conflicts applications busy senicide conflicts h)
      × Settled int_ge conflicts h (conciliate_conflicts applications busy infanticide conflicts h)
unfolding conciliate_conflicts
conciliate-Settled applications busy conflicts h c =
    let (young, e, r) = keep_one-KeepOnes int_le int_le_total int_le_trans conflicts c in
    let (old, f, s) =
      keep_one-KeepOnes int_ge (λ a b. int_le_total b a) (λ x y z q p. int_le_trans z y x p q)
        conflicts c in
    (
      record { calls = young; returned = rw e refl; keep = r },
      record { calls = old; returned = rw f refl; keep = s },
    )
