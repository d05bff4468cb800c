-- ===== src/Process/Invariant/Upkeep.antt =====
-- The methods that rewrite or remove an entry without a new state keep a process consistent.
use supvisors.Prelude.{
  ℕ, Bool, true, false, Option, none, some, Name, ◌≡◌, refl, arith, Bool-cases, Option-cases, ap,
  sym, ◌∙◌, inl, inr, ◌⊎◌, subst, ◌==◌, name_iff,
}
use supvisors.Prelude.Dict.{Dict, lookup, insert, delete, lookup-delete}
use supvisors.Prelude.Dict.Values.{IsDict, insert-IsDict, delete-IsDict}
use supvisors.Types.ProcessStates.{ProcessState, is_running, is_stopping}
use supvisors.Process.{ProcessInfo, ProcessEvent, ProcessStatus, Supervisor}
use supvisors.Process.Status.{state_of}
use supvisors.Process.Synthesis.{is_live}
use supvisors.Process.Events.{update_times, update_disability, remove_identifier, force_state}
use supvisors.Process.Invariant.{IsConsistent, test, any_state, any_state-ext, state_of-insert}

-- The entries may change as long as no state changes its class.
same_tests-IsConsistent :
    (p : ProcessStatus) (d : Dict ProcessInfo)
    → IsConsistent p
    → IsDict d
    → ((k : Name) → test is_running (state_of k d) ≡ test is_running (state_of k p.info_map))
    → ((k : Name) → test is_stopping (state_of k d) ≡ test is_stopping (state_of k p.info_map))
    → IsConsistent (record p { info_map = d })
same_tests-IsConsistent p d h dict running_same stopping_same = record {
  tracks = record {
    distinct = dict;
    live = λ j e.
        live j (state_of j d) (state_of j p.info_map) (running_same j) (stopping_same j)
          (h.tracks.live j e);
    complete = λ j e. h.tracks.complete j (sym (running_same j) ∙ e);
  };
  running_synthesis = h.running_synthesis ∙ sym any_running;
  stopping_synthesis = ground (arith, h.stopping_synthesis, any_running, any_stopping);
}
  where
    any_running : any_state is_running d ≡ any_state is_running p.info_map
    any_running = any_state-ext is_running d p.info_map dict h.tracks.distinct running_same

    any_stopping : any_state is_stopping d ≡ any_state is_stopping p.info_map
    any_stopping = any_state-ext is_stopping d p.info_map dict h.tracks.distinct stopping_same

    live :
        (j : Name) (s t : Option ProcessState)
        → test is_running s ≡ test is_running t
        → test is_stopping s ≡ test is_stopping t
        → test is_live t ≡ true
        → test is_live s ≡ true
    live j s t r q l = ground arith

-- Rewriting an entry with the state that it had.
rewrite-IsConsistent :
    (p : ProcessStatus) (k : Name) (old info : ProcessInfo)
    → IsConsistent p
    → lookup k p.info_map ≡ some old
    → info.state ≡ old.state
    → IsConsistent (record p { info_map = insert k info p.info_map })
rewrite-IsConsistent p k old info h found same =
    same_tests-IsConsistent p (insert k info p.info_map) h
      (insert-IsDict k info p.info_map h.tracks.distinct) (λ j. ap (test is_running) (states j))
      (λ j. ap (test is_stopping) (states j))
  where
    states : (j : Name) → state_of j (insert k info p.info_map) ≡ state_of j p.info_map
    states j = elim (Bool-cases (k == j)) [
      | inl e ↦ moved ((name_iff k j).0 e) e
      | inr e ↦ ground (arith, state_of-insert k j info p.info_map, e)
    ]
      where
        moved :
            k ≡ j → (k == j) ≡ true → state_of j (insert k info p.info_map) ≡ state_of j p.info_map
        moved q e = ground (
          arith,
          state_of-insert k j info p.info_map,
          e,
          found,
          same,
          ap (λ n. lookup n p.info_map) q,
        )

pub update_times-IsConsistent :
    (sup : Supervisor) (k : Name) (remote_mtime remote_time : ℕ) (p : ProcessStatus)
    → IsConsistent p
    → IsConsistent (update_times sup k remote_mtime remote_time p)
unfolding update_times
update_times-IsConsistent sup k remote_mtime remote_time p h =
    elim (Option-cases (lookup k p.info_map)) [
      | inl absent ↦ rw (absent, update_times) h
      | inr (old, found) ↦ rw (found, update_times) (rewrite-IsConsistent p k old _ h found refl)
    ]

pub update_disability-IsConsistent :
    (k : Name) (disabled : Bool) (p : ProcessStatus)
    → IsConsistent p
    → IsConsistent (update_disability k disabled p)
unfolding update_disability
update_disability-IsConsistent k disabled p h = elim (Option-cases (lookup k p.info_map)) [
  | inl absent ↦ rw (absent, update_disability) h
  | inr (old, found) ↦ rw (found, update_disability) (rewrite-IsConsistent p k old _ h found refl)
]

-- Forcing a state leaves the entries alone.
pub force_state-IsConsistent :
    (k : Name) (mtime : ℕ) (event : ProcessEvent) (p : ProcessStatus)
    → IsConsistent p
    → IsConsistent (force_state k mtime event p).0
unfolding force_state
force_state-IsConsistent k mtime event p h = ground arith

pub remove_identifier-IsConsistent :
    (k : Name) (p : ProcessStatus) {q : ProcessStatus} {last : Bool}
    → IsConsistent p
    → test is_live (state_of k p.info_map) ≡ false
    → remove_identifier k p ≡ some (q, last)
    → IsConsistent q
unfolding remove_identifier
remove_identifier-IsConsistent k p {q} h dead removed =
    let same : record p { info_map = delete k p.info_map } ≡ q = ground arith in
    subst IsConsistent same (
      same_tests-IsConsistent p (delete k p.info_map) h
        (delete-IsDict k p.info_map h.tracks.distinct) (λ j. ground (arith, states j))
        (λ j. ground (arith, states j)))
  where
    states :
        (j : Name)
        → (state_of j (delete k p.info_map) ≡ state_of j p.info_map)
          ⊎ (test is_live (state_of j p.info_map) ≡ false)
            × (state_of j (delete k p.info_map) ≡ none)
    states j = elim (Bool-cases (k == j)) [
      | inl e ↦ inr (
        ap (λ n. test is_live (state_of n p.info_map)) (sym ((name_iff k j).0 e)) ∙ dead,
        ground (arith, lookup-delete k j p.info_map, e),
      )
      | inr e ↦ inl (ground (arith, lookup-delete k j p.info_map, e))
    ]
