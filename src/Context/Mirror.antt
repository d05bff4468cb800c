-- ===== src/Context/Mirror.antt =====
-- supvisors/context.py: what holds of the states of the instances at any time.
use supvisors.Prelude.{
  ℕ, false, ◌&&◌, List, some, Name, if◌then◌else◌, ◌==◌, ◌≡◌, ◌≢◌, refl, arith, inl, inr, sym, ◌∙◌,
  ap, subst, name_iff, all, true,
}
use supvisors.Types.InstanceStates.{SupvisorsInstanceStates, stopped, isolated, same_state}
use supvisors.Process.{Supervisor}
use supvisors.StateModes.{SupvisorsStateModes}
use supvisors.Context.{Context, state_in}
use supvisors.Context.Effect.{set_state-Accepted, shown}
use supvisors.Context.Known.{AreMapped, IsKept, mapped-IsClosed}
use supvisors.Context.Closure.Calls.{after_all-closed}
use supvisors.Context.Handlers.{Call, is_named, after_all}

-- The local state and modes show each instance in the state that the Context has it in.
abbrev pub IsMirrored : Context → Type 0
IsMirrored c = (k : Name) → shown k c.state_modes ≡ state_in k c.instances

IsMirrored-IsKept : IsKept IsMirrored
IsMirrored-IsKept = record {
  set = λ mtime s k c safe h. elim (set_state-Accepted mtime s k c) [
    | inl e ↦ subst IsMirrored (sym e) h
    | inr a ↦ λ j. ground (arith, a.views j, a.states j, h j)
  ];
  keep = λ c c' same h k. ap (shown k) same.state_modes ∙ h k ∙ sym (same.instances k);
  discover = λ k c c' d new remote h j. ground (arith, d.views remote j, d.states j, h j);
}

-- Where the mapper has the instances of the Context and the local one, the local state and modes
-- show every instance in the state that the Context has it in, and an instance is discovered
-- under the identifier that it publishes, the mapper still has them and the local state and
-- modes still show their states after any calls of on_discovery_event, load_processes without
-- information, on_authorization, activate_checked, on_local_tick_event, on_tick_event,
-- on_timer_event, on_instance_failure and invalidate_failed, in any order and with any
-- exceptions.
pub after_all-IsMirrored :
    (sup : Supervisor) (tick_period : ℕ) (calls : List Call) (c : Context)
    → all is_named calls ≡ true
    → AreMapped c
    → IsMirrored c
    → let c' = after_all sup tick_period calls c in AreMapped c' × IsMirrored c'
after_all-IsMirrored sup tick_period calls c named mapped h =
    after_all-closed sup tick_period (mapped-IsClosed IsMirrored-IsKept) calls c named (mapped, h)

-- The local instance is not ISOLATED.
abbrev pub IsOpen : Name → Context → Type 0
IsOpen local c =
    (c.state_modes.local_identifier ≡ local) × (state_in local c.instances ≢ some isolated)

IsOpen-IsKept : (local : Name) → IsKept (IsOpen local)
IsOpen-IsKept local = record {
  set = λ mtime s k c safe h. elim (set_state-Accepted mtime s k c) [
    | inl e ↦ subst (IsOpen local) (sym e) h
    | inr a ↦ (a.local ∙ h.0, λ q. isolates mtime s k c safe h (sym (a.states local) ∙ q))
  ];
  keep = λ c c' same h. (
    ap SupvisorsStateModes.local_identifier same.state_modes ∙ h.0,
    λ q. h.1 (sym (same.instances local) ∙ q),
  );
  discover =
      λ k c c' d new remote h. (d.local ∙ h.0, λ q. adds k c h remote (sym (d.states local) ∙ q));
}
  where
    isolates :
        (mtime : ℕ) (s : SupvisorsInstanceStates) (k : Name) (c : Context)
        → (same_state s isolated && k == c.state_modes.local_identifier) ≡ false
        → IsOpen local c
        → (if k == local then some s else state_in local c.instances) ≢ some isolated
    isolates mtime s k c safe h q =
        ground
          (arith, safe, h.0, h.1, q, name_iff k local, name_iff k c.state_modes.local_identifier)

    adds :
        (k : Name) (c : Context)
        → IsOpen local c
        → (k == c.state_modes.local_identifier) ≡ false
        → (if k == local then some stopped else state_in local c.instances) ≢ some isolated
    adds k c h remote q =
        ground
          (arith, h.0, h.1, q, remote, name_iff k local, name_iff k c.state_modes.local_identifier)

-- Where the mapper has the instances of the Context and the local one, and an instance is
-- discovered under the identifier that it publishes, a local instance that is not ISOLATED is
-- not ISOLATED after any calls of on_discovery_event, load_processes without information,
-- on_authorization, activate_checked, on_local_tick_event, on_tick_event, on_timer_event,
-- on_instance_failure and invalidate_failed, in any order and with any exceptions, and stays the
-- local instance.
pub after_all-IsOpen :
    (sup : Supervisor) (tick_period : ℕ) (calls : List Call) (c : Context)
    → all is_named calls ≡ true
    → AreMapped c
    → state_in c.state_modes.local_identifier c.instances ≢ some isolated
    → let c' = after_all sup tick_period calls c in
      (c'.state_modes.local_identifier ≡ c.state_modes.local_identifier)
      × (state_in c.state_modes.local_identifier c'.instances ≢ some isolated)
after_all-IsOpen sup tick_period calls c named mapped h =
    (after_all-closed sup tick_period
      (mapped-IsClosed (IsOpen-IsKept c.state_modes.local_identifier)) calls c named
      (mapped, (refl, h))).1
