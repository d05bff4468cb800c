-- ===== src/Context/Closure/Calls.antt =====
-- supvisors/context.py: each of the calls keeps what the setter keeps.
use supvisors.Prelude.{
  ℕ, Bool, true, false, ◌&&◌, not, List, [], ◌∷◌, Option, none, some, some_eq, Name, ◌==◌, ◌≡◌,
  refl, ap, all, inl, inr, subst, sym, arith,
}
use supvisors.Prelude.Dict.{lookup, keys}
use supvisors.Prelude.NameSet.{NameSet}
use supvisors.Types.InstanceStates.{stopped, checking, failed, same_state}
use supvisors.Instances.Times.{Clock}
use supvisors.Instances.Status.{InstanceStatus}
use supvisors.Process.{Supervisor}
use supvisors.Process.Events.{invalidate_identifier}
use supvisors.Mapper.InstanceId.{SupvisorsInstanceId}
use supvisors.Context.{Context, state_in, context_of}
use supvisors.Context.Discovery.{on_discovery_event}
use supvisors.Context.Discovered.{on_discovery_event-Discovered}
use supvisors.Context.Handshake.{activate_checked, load_nothing}
use supvisors.Context.Ticks.{
  TickEvent, update_tick, check_stopped, on_local_tick_event, on_tick_event, on_timer_event,
  can_work,
}
use supvisors.Context.Failures.{
  on_instance_failure, lose_processes, invalidate_one, invalidate_from, invalidate_failed,
}
use supvisors.Context.Handlers.{
  Call, is_named, after, after_all, discovery, no_processes, authorization, activate, local_tick,
  tick, timer, failure, invalidate_all,
}
use supvisors.Context.Closure.{
  SameStates, IsClosed, Leaves, returns, raises, sets, rewrite-SameStates, and_then-Leaves,
  if-Leaves, option-Leaves, invalidate-Leaves, on_authorization-Leaves, activate_from-Leaves,
  fail_inactive-Leaves,
}

same :
    (c c' : Context) → c'.instances ≡ c.instances → c'.state_modes ≡ c.state_modes → SameStates c c'
same c c' i m = record { instances = λ k. ap (state_in k) i; state_modes = m }

module _ (sup : Supervisor) (tick_period : ℕ) {P : Context → Type 0} (closed : IsClosed P) where
  update_tick-closed :
      (clock : Clock) (k : Name) (event : TickEvent) (counter : Option ℕ) (status : InstanceStatus)
      (c : Context)
      → lookup k c.instances ≡ some status
      → P c
      → P (update_tick sup tick_period clock k event counter status c)
  unfolding update_tick
  update_tick-closed clock k event counter status c found h =
      closed.keep c _ (rewrite-SameStates c _ k status _ found refl refl refl) h

  check_stopped-Leaves :
      (clock : Clock) (k : Name) (c : Context)
      → P c
      → Leaves P (check_stopped sup tick_period clock k c)
  unfolding check_stopped
  check_stopped-Leaves clock k c h =
      option-Leaves closed (lookup k c.instances) _ _ (raises closed h) (λ status e.
        if-Leaves closed (same_state status.state stopped) _ _
          (and_then-Leaves closed _ _ (sets closed clock.mtime checking k c refl h)
            (λ _ c' h'. returns closed (closed.keep c' _ (same c' _ refl refl) h')))
          (returns closed h))

  on_local_tick_event-Leaves :
      (clock : Clock) (event : TickEvent) (c : Context)
      → P c
      → Leaves P (on_local_tick_event sup tick_period clock event c)
  unfolding on_local_tick_event
  on_local_tick_event-Leaves clock event c h =
      option-Leaves closed (lookup c.state_modes.local_identifier c.instances) _ _ (raises closed h)
        (λ status e.
          check_stopped-Leaves clock _ _ (update_tick-closed clock _ event none status c e h))

  on_tick_event-Leaves :
      (clock : Clock) (k : Name) (event : TickEvent) (c : Context)
      → P c
      → Leaves P (on_tick_event sup tick_period clock k event c)
  unfolding on_tick_event
  on_tick_event-Leaves clock k event c h =
      option-Leaves closed (lookup c.state_modes.local_identifier c.instances) _ _ (raises closed h)
        (λ local_status e.
          if-Leaves closed (not (can_work local_status.state)) _ _ (returns closed h) (
            option-Leaves closed (lookup k c.instances) _ _ (raises closed h) (λ status q.
              check_stopped-Leaves clock k _ (
                update_tick-closed clock k event (some local_status.times.remote_sequence_counter)
                  status c q h))))

  lose_processes-Leaves :
      (mtime : ℕ) (k : Name) (ns : List Name) (lost : NameSet) (c : Context)
      → P c
      → Leaves P (lose_processes sup mtime k ns lost c)
  unfolding lose_processes
  lose_processes-Leaves mtime k [] lost c h = returns closed h
  lose_processes-Leaves mtime k (n ∷ ns) lost c h =
      option-Leaves closed (lookup n c.processes) _ _ (raises closed h) (λ p e.
        option-Leaves closed (invalidate_identifier sup k mtime p) _ _ (raises closed h)
          (λ lost_one q.
            lose_processes-Leaves mtime k ns _ _ (closed.keep c _ (same c _ refl refl) h)))

  invalidate_from-Leaves :
      (mtime : ℕ) (ks found : List Name) (lost : NameSet) (c : Context)
      → P c
      → Leaves P (invalidate_from sup mtime found lost ks c)
  unfolding invalidate_from invalidate_one
  invalidate_from-Leaves mtime [] found lost c h = returns closed h
  invalidate_from-Leaves mtime (k ∷ ks) found lost c h =
      option-Leaves closed (lookup k c.instances) _ _ (raises closed h) (λ status e.
        and_then-Leaves closed _ _
          (if-Leaves closed (same_state status.state failed) _ _
            (and_then-Leaves closed _ _ (invalidate-Leaves closed mtime k false c h)
              (λ _ c' h'. lose_processes-Leaves mtime k _ lost c' h'))
            (returns closed h))
          (λ lost' c' h'. invalidate_from-Leaves mtime ks _ lost' c' h'))

  discovery-closed :
      (k nick : Name) (item : Option SupvisorsInstanceId) (c : Context)
      → is_named (discovery k nick item) ≡ true
      → P c
      → P (context_of (on_discovery_event k nick item c))
  discovery-closed k nick item c named h =
      elim (on_discovery_event-Discovered k nick item c (found item named)) [
        | inl e ↦ subst P (sym e) h
        | inr d ↦ closed.discover k c _ d h
      ]
    where
      found :
          (item : Option SupvisorsInstanceId)
          → is_named (discovery k nick item) ≡ true
          → (i : SupvisorsInstanceId) → item ≡ some i
          → (i.identifier == k) ≡ true
      found none named i e = absurd (ground (arith, e))
      found (some j) named i e =
          subst (λ x. (SupvisorsInstanceId.identifier x == k) ≡ true) (some_eq e) named

  -- What the setter and a discovery keep, every call keeps.
  pub after-closed :
      (call : Call) (c : Context) → is_named call ≡ true → P c → P (after sup tick_period call c)
  unfolding after load_nothing activate_checked on_timer_event on_instance_failure invalidate_failed
  after-closed (discovery k nick item) c named h = discovery-closed k nick item c named h
  after-closed (no_processes mtime k) c named h = closed.set mtime stopped k c refl h
  after-closed (authorization mtime k event) c named h =
      (on_authorization-Leaves closed mtime k event c h).holds
  after-closed (activate mtime) c named h =
      (activate_from-Leaves closed mtime (keys c.instances) [] c h).holds
  after-closed (local_tick clock event) c named h =
      (on_local_tick_event-Leaves clock event c h).holds
  after-closed (tick clock k event) c named h = (on_tick_event-Leaves clock k event c h).holds
  after-closed (timer mtime event) c named h =
      (fail_inactive-Leaves closed mtime event.sequence_counter (keys c.instances) c h).holds
  after-closed (failure mtime k) c named h = closed.set mtime failed k c refl h
  after-closed (invalidate_all mtime) c named h =
      (invalidate_from-Leaves mtime (keys c.instances) [] [] c h).holds

  pub after_all-closed :
      (calls : List Call) (c : Context)
      → all is_named calls ≡ true
      → P c
      → P (after_all sup tick_period calls c)
  unfolding after_all
  after_all-closed [] c named h = h
  after_all-closed (call ∷ calls) c named h =
      let (one, rest) = both (is_named call) (all is_named calls) named in
      after_all-closed calls (after sup tick_period call c) rest (after-closed call c one h)
    where
      both : (a b : Bool) → (a && b) ≡ true → (a ≡ true) × (b ≡ true)
      both a b h = ground arith
