-- ===== src/Process/History.antt =====
-- The life of a ProcessStatus: the calls that supvisors/context.py makes, in any order.
use supvisors.Prelude.{
  ℕ, Bool, true, false, ◌&&◌, not, Option, none, some, Name, ◌≡◌, arith, sym, ◌∙◌, ◌≢◌, subst,
  some_eq,
}
use supvisors.Prelude.NameSet.{contains}
use supvisors.Prelude.Dict.{lookup}
use supvisors.Types.ProcessStates.{ProcessState, is_running, is_stopping, is_stopped}
use supvisors.Process.{ProcessInfo, ProcessEvent, ProcessStatus, Supervisor, IsSupervisor, new}
use supvisors.Process.Rules.{ProcessRules}
use supvisors.Process.Status
use supvisors.Process.Status.{state_of}
use supvisors.Process.Synthesis.{is_live}
use supvisors.Process.Events.{
  add_info, update_info, invalidate_identifier, update_times, update_disability, remove_identifier,
  force_state,
}
use supvisors.Process.Invariant.{IsConsistent, any_state, test}
use supvisors.Process.Invariant.Methods.{
  new-IsConsistent, add_info-IsConsistent, update_info-IsConsistent,
  invalidate_identifier-IsConsistent,
}
use supvisors.Process.Invariant.Upkeep.{
  update_times-IsConsistent, update_disability-IsConsistent, force_state-IsConsistent,
  remove_identifier-IsConsistent,
}

-- One call. Supervisor removes a process only once it is stopped.
pub data Step (sup : Supervisor) (p q : ProcessStatus) : Type 0 where
  added :
      (k : Name) (mtime : ℕ) (payload : ProcessInfo)
      → add_info sup k mtime payload p ≡ some q
      → Step sup p q
  updated :
      (k : Name) (mtime : ℕ) (event : ProcessEvent)
      → lookup k p.info_map ≢ none
      → update_info sup k mtime event true p ≡ some q
      → Step sup p q
  forced :
      (k : Name) (mtime : ℕ) (event : ProcessEvent)
      → (force_state k mtime event p).0 ≡ q
      → Step sup p q
  ticked : (k : Name) (mtime time : ℕ) → update_times sup k mtime time p ≡ q → Step sup p q
  disabled : (k : Name) (off : Bool) → update_disability k off p ≡ q → Step sup p q
  lost :
      (k : Name) (mtime : ℕ) (failure : Bool)
      → invalidate_identifier sup k mtime p ≡ some (q, failure)
      → Step sup p q
  removed :
      (k : Name) (last : Bool)
      → test is_live (state_of k p.info_map) ≡ false
      → remove_identifier k p ≡ some (q, last)
      → Step sup p q

pub data Reach (sup : Supervisor) (p : ProcessStatus) : ProcessStatus → Type 0 where
  start : Reach sup p p
  next : {q r : ProcessStatus} → Reach sup p q → Step sup q r → Reach sup p r

module _ (sup : Supervisor) (law : IsSupervisor sup) where
  Step-IsConsistent : {p q : ProcessStatus} → IsConsistent p → Step sup p q → IsConsistent q
  Step-IsConsistent {p} h (added k mtime payload e) =
      let (r, found, c, _) = add_info-IsConsistent sup law k mtime payload p h in
      subst IsConsistent (some_eq (sym found ∙ e)) c
  Step-IsConsistent {p} h (updated k mtime event known e) =
      let (r, found, c, _) = update_info-IsConsistent sup law k mtime event true p h known in
      subst IsConsistent (some_eq (sym found ∙ e)) c
  Step-IsConsistent {p} h (forced k mtime event e) =
      subst IsConsistent e (force_state-IsConsistent k mtime event p h)
  Step-IsConsistent {p} h (ticked k mtime time e) =
      subst IsConsistent e (update_times-IsConsistent sup k mtime time p h)
  Step-IsConsistent {p} h (disabled k off e) =
      subst IsConsistent e (update_disability-IsConsistent k off p h)
  Step-IsConsistent {p} {q} h (lost k mtime failure e) =
      let (r, flag, found, c, _, _, _) = invalidate_identifier-IsConsistent sup law k mtime p h in
      subst IsConsistent (same r flag (sym found ∙ e)) c
    where
      same :
          (r : ProcessStatus) (flag : Bool)
          → ◌≡◌ {A = Option (ProcessStatus × Bool)} (some (r, flag)) (some (q, failure))
          → r ≡ q
      same r flag e = ground arith
  Step-IsConsistent {p} h (removed k last dead e) = remove_identifier-IsConsistent k p h dead e

  Reach-IsConsistent : {p q : ProcessStatus} → IsConsistent p → Reach sup p q → IsConsistent q
  Reach-IsConsistent h start = h
  Reach-IsConsistent h (next r s) = Step-IsConsistent (Reach-IsConsistent h r) s

  -- After any calls on a new process, in any order, it counts as running exactly if an instance
  -- last reported a running-like state, and as stopped exactly if none last reported a running-
  -- like state or STOPPING; a process is removed from an instance only when it does not live
  -- there.
  pub running_synthesis :
      (application_name process_name namespec : Name) (rules : ProcessRules) {p : ProcessStatus}
      → Reach sup (new application_name process_name namespec rules) p
      → (Status.running sup p ≡ any_state is_running p.info_map)
        × (Status.stopped sup p
            ≡ (not (any_state is_running p.info_map) && not (any_state is_stopping p.info_map)))
  unfolding Status.running Status.stopped
  running_synthesis a n s rules {p} r =
      let h = Reach-IsConsistent (new-IsConsistent a n s rules) r in
      (
        law.running_iff p.state ∙ h.running_synthesis,
        law.stopped_iff p.state ∙ classes _ _ p.state h.running_synthesis h.stopping_synthesis,
      )
    where
      classes :
          (x y : Bool) (state : ProcessState)
          → is_running state ≡ x
          → is_stopping state ≡ (not x && y)
          → is_stopped state ≡ (not x && not y)
      classes x y state e q = ground arith

  -- After any calls on a new process, the running identifiers include all instances that last
  -- reported a running-like state, and only instances that last reported a running-like state or
  -- STOPPING.
  pub running_identifiers_sound :
      (application_name process_name namespec : Name) (rules : ProcessRules) {p : ProcessStatus}
      → Reach sup (new application_name process_name namespec rules) p
      → (k : Name)
      → ((contains k p.running_identifiers && not (test is_live (state_of k p.info_map))) ≡ false)
        × ((test is_running (state_of k p.info_map) && not (contains k p.running_identifiers))
            ≡ false)
  running_identifiers_sound a n s rules r k =
      let h = Reach-IsConsistent (new-IsConsistent a n s rules) r in
      (ground (arith, h.tracks.live k), ground (arith, h.tracks.complete k))
