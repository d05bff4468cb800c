-- ===== src/StateModes/Election/Agreement.antt =====
-- Instances with one view of the others select the same Master.
use mathlib.Core.Path.{fun_ext}
use supvisors.Prelude.{
  Bool, ◌&&◌, List, [], ◌∷◌, some, Name, ◌==◌, ◌≡◌, arith, Bool-cases, keep, inl, inr, sym, ◌∙◌, ap,
  name_iff, subst,
}
use supvisors.Prelude.NameSet.{contains, contains-discard}
use supvisors.StateModes.{SupvisorsStateModes}
use supvisors.StateModes.Views.{running_identifiers}
use supvisors.StateModes.Master.{
  get_master_identifiers, nick_identifier, lowest, all_candidates, candidates, select_master,
  or_else,
}
use supvisors.StateModes.Election.Lowest.{lowest_agree, IsKeyed}
use supvisors.StateModes.Election.{selected, set_master}

or_else-same :
    (xs xs' ys ys' : List Name)
    → ((k : Name) → contains k xs ≡ contains k xs')
    → ((k : Name) → contains k ys ≡ contains k ys')
    → (k : Name) → contains k (or_else xs ys) ≡ contains k (or_else xs' ys')
unfolding contains
or_else-same [] [] ys ys' h h' k = h' k
or_else-same [] (x ∷ xs') ys ys' h h' k = absurd (ground (arith, h x, name_iff x x))
or_else-same (x ∷ xs) [] ys ys' h h' k = absurd (ground (arith, h x, name_iff x x))
or_else-same (x ∷ xs) (x' ∷ xs') ys ys' h h' k = h k

contains-keep :
    (p : Name → Bool) (k : Name) (xs : List Name) → contains k (keep p xs) ≡ (p k && contains k xs)
unfolding contains
contains-keep p k [] = ground arith
contains-keep p k (x ∷ xs) = elim (Bool-cases (x == k)) [
  | inl e ↦ ground (arith, contains-keep p k xs, ap p ((name_iff x k).0 e), e)
  | inr e ↦ ground (arith, contains-keep p k xs, e)
]

-- Two instances have one view for the election: the same nick identifiers and core instances, the
-- same declared Masters and the same running instances. Sets and dictionaries may be in any order.
pub record SameView (m n : SupvisorsStateModes) : Type 0 where
  pub nicks : (k : Name) → nick_identifier m.mapper k ≡ nick_identifier n.mapper k
  pub cores :
      (k : Name) → contains k m.mapper.core_identifiers ≡ contains k n.mapper.core_identifiers
  pub declared :
      (k : Name) → contains k (get_master_identifiers m) ≡ contains k (get_master_identifiers n)
  pub running :
      (k : Name)
      → contains k (running_identifiers m.local_state_modes)
        ≡ contains k (running_identifiers n.local_state_modes)

candidates-same :
    (m n : SupvisorsStateModes)
    → SameView m n
    → (k : Name) → contains k (candidates m) ≡ contains k (candidates n)
unfolding candidates all_candidates
candidates-same m n v = or_else-same _ _ _ _ core all
  where
    all : (k : Name) → contains k (all_candidates m) ≡ contains k (all_candidates n)
    all =
        or_else-same _ _ _ _
          (λ k. ground (
            arith,
            v.declared k,
            contains-discard "" k (get_master_identifiers m),
            contains-discard "" k (get_master_identifiers n),
          ))
          v.running

    core :
        (k : Name)
        → contains k (keep (λ j. contains j (all_candidates m)) m.mapper.core_identifiers)
          ≡ contains k (keep (λ j. contains j (all_candidates n)) n.mapper.core_identifiers)
    core k = ground (
      arith,
      all k,
      v.cores k,
      contains-keep (λ j. contains j (all_candidates m)) k m.mapper.core_identifiers,
      contains-keep (λ j. contains j (all_candidates n)) k n.mapper.core_identifiers,
    )

-- Two instances with one view of the others that both select a Master select the same one,
-- whatever the order of their sets, if the nick identifiers of the candidates are different.
pub select_master_agree :
    (m n : SupvisorsStateModes) {m' n' : SupvisorsStateModes}
    → SameView m n
    → IsKeyed (nick_identifier m.mapper) (candidates m)
    → select_master m ≡ some m'
    → select_master n ≡ some n'
    → m'.local_state_modes.master_identifier ≡ n'.local_state_modes.master_identifier
select_master_agree m n {m'} {n'} v keyed hm hn =
    let (j, fj, sj) = selected m hm in
    let (k, fk, sk) = selected n hn in
    let same : nick_identifier m.mapper ≡ nick_identifier n.mapper = fun_ext v.nicks in
    set_master m j sj
    ∙ lowest_agree (nick_identifier m.mapper) (candidates m) (candidates n) keyed
        (candidates-same m n v) fj (subst (λ f. lowest f (candidates n) ≡ some k) (sym same) fk)
    ∙ sym (set_master n k sk)
