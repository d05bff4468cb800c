-- ===== src/Process/Invariant/Settle.antt =====
-- `update_status` succeeds on consistent data, and its result is consistent.
use supvisors.Prelude.{
  Bool, true, false, List, [], ◌∷◌, Option, none, some, Name, length, any, ◌≡◌, refl, arith,
  Bool-cases, Option-cases, ap, sym, ◌∙◌, inl, inr, In, here, there, subst, any-of_In, In-of_any,
  name_self, ◌≢◌,
}
use supvisors.Prelude.Dict.{Dict, lookup, insert, values, lookup-insert}
use supvisors.Prelude.NameSet.{NameSet, contains-In, In-contains}
use supvisors.Types.ProcessStates.{ProcessState, stopping, same_state, is_running, is_stopping}
use supvisors.Process.{ProcessInfo, ProcessStatus, Supervisor, IsSupervisor}
use supvisors.Process.Status.{
  states_of, state_of, latest, running_state, update_status, update_running, conflicting,
  synthesize, synthesize_stopped, synthesize_running, evaluate_conflict,
}
use supvisors.Process.Synthesis.{is_live, running_state-running, running_state-stopping, In-latest}
use supvisors.Process.Invariant.{
  Tracks, IsConsistent, test, any_state, any_state-of_key, bool_eq, key_of_any_state,
  update_running-Tracks,
}

-- The states of instances that all have an entry.
states_of-any :
    (ks : NameSet) (d : Dict ProcessInfo)
    → ((k : Name) → In k ks → test is_live (state_of k d) ≡ true)
    → (states : List ProcessState) × (states_of ks d ≡ some states)
      × ((f : ProcessState → Bool) → any f states ≡ any (λ k. test f (state_of k d)) ks)
unfolding states_of
states_of-any [] d h = ([], refl, λ f. refl)
states_of-any (k ∷ ks) d h =
    let (states, e, q) = states_of-any ks d (λ j i. h j (there i)) in
    elim (Option-cases (lookup k d)) [
      | inl absent ↦ absurd (ground (arith, h k (here refl), absent))
      | inr (info, found) ↦
          (info.state ∷ states, ground (arith, e, found), λ f. ground (arith, q f, found))
    ]

In-values :
    (k : Name) (d : Dict ProcessInfo) {info : ProcessInfo}
    → lookup k d ≡ some info
    → latest (values d) ≢ none
unfolding lookup values latest
In-values k [] e = absurd (ground arith)
In-values k ((j, w) ∷ d) e = ground arith

module _ (running : NameSet) (d : Dict ProcessInfo) (t : Tracks running d) where
  -- Some instance runs the process exactly if a running identifier does.
  any_running-tracked : any_state is_running d ≡ any (λ k. test is_running (state_of k d)) running
  any_running-tracked = bool_eq _ _ forward backward
    where
      forward :
          any_state is_running d ≡ true → any (λ k. test is_running (state_of k d)) running ≡ true
      forward h =
          let (k, e) = key_of_any_state is_running d t.distinct h in
          any-of_In (λ j. test is_running (state_of j d)) (contains-In k running (t.complete k e)) e

      backward :
          any (λ k. test is_running (state_of k d)) running ≡ true → any_state is_running d ≡ true
      backward h =
          let (k, i, e) = In-of_any (λ j. test is_running (state_of j d)) running h in
          any_state-of_key is_running k d e

  live_In : (k : Name) → In k running → test is_live (state_of k d) ≡ true
  live_In k i = t.live k (In-contains i)

any_same_stopping :
    (infos : List ProcessInfo)
    → any (λ info. same_state info.state stopping) infos
      ≡ any (λ info. is_stopping info.state) infos
any_same_stopping [] = refl
any_same_stopping (info ∷ infos) = ground (arith, any_same_stopping infos)

abbrev Settles : ProcessStatus → Option ProcessStatus → Type 0
Settles p r =
    (q : ProcessStatus) × (r ≡ some q)
    × IsConsistent q
    × (q.info_map ≡ p.info_map)
    × (q.running_identifiers ≡ p.running_identifiers)

module _ (sup : Supervisor) (law : IsSupervisor sup) where
  -- The first running identifier is live.
  live_class :
      (p : ProcessStatus) (k : Name) (ks : NameSet)
      → p.running_identifiers ≡ k ∷ ks
      → Tracks p.running_identifiers p.info_map
      → (any_state is_running p.info_map ≡ false)
      → (any (λ j. test is_stopping (state_of j p.info_map)) p.running_identifiers ≡ true)
        × (any_state is_stopping p.info_map ≡ true)
  live_class p k ks e t none_running =
      let first : In k p.running_identifiers = rw e (here refl) in
      let stops : test is_stopping (state_of k p.info_map) ≡ true = ground (
        arith,
        live_In p.running_identifiers p.info_map t k first,
        none_running,
        any_state-of_key is_running k p.info_map,
      ) in
      (
        any-of_In (λ j. test is_stopping (state_of j p.info_map)) first stops,
        any_state-of_key is_stopping k p.info_map stops,
      )

  settle_conflict :
      (p : ProcessStatus) (k : Name) (ks : NameSet)
      → p.running_identifiers ≡ k ∷ ks
      → Tracks p.running_identifiers p.info_map
      → Settles p (evaluate_conflict sup p)
  unfolding evaluate_conflict
  settle_conflict p k ks e t =
      let live = live_In p.running_identifiers p.info_map t in
      let (states, found, same) = states_of-any p.running_identifiers p.info_map live in
      let all_running = any_running-tracked p.running_identifiers p.info_map t in
      (
        record p { state = running_state sup states },
        ground (arith, found),
        record {
          tracks = t;
          running_synthesis =
              ground (arith, running_state-running sup law states, same is_running, all_running);
          stopping_synthesis = ground (
            arith,
            running_state-stopping sup law states,
            same is_running,
            same is_stopping,
            all_running,
            live_class p k ks e t,
          );
        },
        refl,
        refl,
      )

  settle_running :
      (p : ProcessStatus) (k : Name)
      → p.running_identifiers ≡ k ∷ []
      → Tracks p.running_identifiers p.info_map
      → Settles p (synthesize_running sup k p)
  unfolding synthesize_running
  settle_running p k e t =
      let first : In k p.running_identifiers = rw e (here refl) in
      let live = live_In p.running_identifiers p.info_map t k first in
      let all_running = any_running-tracked p.running_identifiers p.info_map t in
      elim (Option-cases (state_of k p.info_map)) [
        | inl absent ↦ absurd (ground (arith, live, absent))
        | inr (s, found) ↦ (
          record p { state = s; expected_exit = true },
          ground (arith, found),
          record {
            tracks = t;
            running_synthesis = rw (all_running, e, found) (ground arith);
            stopping_synthesis = ground (
              arith,
              live,
              found,
              rw (e, found) at all_running,
              live_class p k [] e t,
              any_state-of_key is_running k p.info_map,
            );
          },
          refl,
          refl,
        )
      ]

  settle_stopped :
      (p : ProcessStatus) (k : Name) (info : ProcessInfo)
      → p.running_identifiers ≡ []
      → lookup k p.info_map ≡ some info
      → Tracks p.running_identifiers p.info_map
      → Settles p (synthesize_stopped sup p)
  unfolding synthesize_stopped
  settle_stopped p k info e known t =
      let all_running : any_state is_running p.info_map ≡ false =
        any_running-tracked p.running_identifiers p.info_map t ∙ rw e refl in
      elim (Bool-cases (any_state is_stopping p.info_map)) [
        | inl some_stopping ↦ (
          record p { state = stopping; expected_exit = true },
          ground (arith, any_same_stopping (values p.info_map), some_stopping),
          record {
            tracks = t;
            running_synthesis = ground (arith, all_running);
            stopping_synthesis = ground (arith, all_running, some_stopping);
          },
          refl,
          refl,
        )
        | inr none_stopping ↦ elim (Option-cases (latest (values p.info_map))) [
          | inl absent ↦ absurd (In-values k p.info_map known absent)
          | inr (last, found) ↦
              let i : In last (values p.info_map) = In-latest (values p.info_map) found in
              (
                record p { state = last.state; expected_exit = last.expected },
                ground (arith, any_same_stopping (values p.info_map), none_stopping, found),
                record {
                  tracks = t;
                  running_synthesis =
                      ground (arith, all_running, any-of_In (λ j. is_running j.state) i);
                  stopping_synthesis =
                      ground
                        (arith, all_running, none_stopping, any-of_In (λ j. is_stopping j.state) i);
                },
                refl,
                refl,
              )
        ]
      ]

  settle :
      (p : ProcessStatus) (k : Name) (info : ProcessInfo) (names : NameSet)
      → p.running_identifiers ≡ names
      → lookup k p.info_map ≡ some info
      → Tracks p.running_identifiers p.info_map
      → Settles p (synthesize sup names p)
  unfolding synthesize conflicting
  settle p k info [] e known t = settle_stopped p k info e known t
  settle p k info (j ∷ []) e known t =
      let single : synthesize sup (j ∷ []) p ≡ synthesize_running sup j p =
        ground (arith, ap length e) in
      subst (Settles p) (sym single) (settle_running p j e t)
  settle p k info (j ∷ i ∷ names) e known t =
      let several : synthesize sup (j ∷ i ∷ names) p ≡ evaluate_conflict sup p =
        ground (arith, ap length e) in
      subst (Settles p) (sym several) (settle_conflict p j (i ∷ names) e t)

-- `update_status` on an entry that has just been written, in a process that was consistent before:
-- it succeeds, changes neither the entries nor what does not depend on the state, and its result is
-- consistent.
pub update_status-IsConsistent :
    (sup : Supervisor) (law : IsSupervisor sup) (p p' : ProcessStatus) (k : Name)
    (info : ProcessInfo)
    → IsConsistent p
    → p'.info_map ≡ insert k info p.info_map
    → p'.running_identifiers ≡ p.running_identifiers
    → p'.state ≡ p.state
    → (q : ProcessStatus) × (update_status sup k info.state p' ≡ some q)
      × IsConsistent q
      × (q.info_map ≡ insert k info p.info_map)
unfolding update_status update_running
update_status-IsConsistent sup law p p' k info h same_map same_running same_st =
    let p'' = update_running sup k info.state p' in
    let tracks = update_running-Tracks sup law p p' k info h same_map same_running same_st in
    let kept : p''.info_map ≡ p'.info_map = ground arith in
    let known : lookup k p'.info_map ≡ some info =
      rw same_map (ground (arith, lookup-insert k k info p.info_map, name_self k)) in
    let (q, found, consistent, same, _) =
      settle sup law p'' k info p''.running_identifiers refl (rw kept known)
        (subst (Tracks p''.running_identifiers) (sym kept) tracks) in
    (q, found, consistent, same ∙ kept ∙ same_map)
