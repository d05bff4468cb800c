-- ===== src/Context/Closure.antt =====
-- supvisors/context.py: what the setter of an instance's state and a discovery keep, every call keeps,
-- also where it raises an exception.
pub mod Calls
use supvisors.Prelude.{
  ℕ, Bool, true, false, ◌&&◌, ◌||◌, not, List, [], ◌∷◌, ◌++◌, Option, none, some, Name,
  if◌then◌else◌, ◌==◌, ◌≡◌, refl, arith, Bool-cases, Option-cases, inl, inr, sym, ◌∙◌, ap, name_iff,
}
use supvisors.Prelude.Dict.{Dict, lookup, insert, keys, lookup-insert}
use supvisors.Prelude.NameSet.{NameSet, add}
use supvisors.Types.InstanceStates.{
  SupvisorsInstanceStates, isolated, stopped, checked, running, failed, checking, same_state,
}
use supvisors.Types.Strategies.{
  AuthorizationTypes, unknown, authorized, not_authorized, inconsistent,
}
use supvisors.Instances.Times.{Clock}
use supvisors.Instances.Status.{InstanceStatus, is_inactive, is_checking}
use supvisors.Process.{Supervisor}
use supvisors.Process.Events.{invalidate_identifier}
use supvisors.Context.{Context, Result, Exception, done, raised, context_of, and_then, state_in}
use supvisors.Context.Effect.{state_in-insert}
use supvisors.Context.Discovered.{Discovered}
use supvisors.Context.Setter.{set_state}
use supvisors.Context.Handshake.{
  AuthorizationEvent, invalidate, is_obsolete, is_fencing, authorize, on_authorization_type,
  on_authorization, activate_from, activate_checked,
}
use supvisors.Context.Ticks.{
  TickEvent, update_tick, check_stopped, on_local_tick_event, on_tick_event, fail_inactive,
  on_timer_event,
}
use supvisors.Context.Failures.{
  on_instance_failure, lose_processes, invalidate_one, invalidate_from, invalidate_failed,
  running_processes,
}
use supvisors.Context.Handlers.{Call, after, after_all}

-- The instances have the same states and the state and modes are the same.
pub record SameStates (c c' : Context) : Type 0 where
  pub instances : (k : Name) → state_in k c'.instances ≡ state_in k c.instances
  pub state_modes : c'.state_modes ≡ c.state_modes

-- No call sets the local instance to ISOLATED.
pub record IsClosed (P : Context → Type 0) : Type 0 where
  pub set :
      (mtime : ℕ) (s : SupvisorsInstanceStates) (k : Name) (c : Context)
      → (same_state s isolated && k == c.state_modes.local_identifier) ≡ false
      → P c
      → P (context_of (set_state mtime s k c))
  pub keep : (c c' : Context) → SameStates c c' → P c → P c'
  pub discover : (k : Name) (c c' : Context) → Discovered k c c' → P c → P c'

-- An instance may be rewritten with the state that it had.
pub rewrite-SameStates :
    (c c' : Context) (k : Name) (old status : InstanceStatus)
    → lookup k c.instances ≡ some old
    → status.state ≡ old.state
    → c'.instances ≡ insert k status c.instances
    → c'.state_modes ≡ c.state_modes
    → SameStates c c'
unfolding state_in
rewrite-SameStates c c' k old status found same instances modes = record {
  instances = λ j. ap (state_in j) instances ∙ state_in-insert k j status c.instances ∙ at j;
  state_modes = modes;
}
  where
    at :
        (j : Name)
        → (if k == j then some status.state else state_in j c.instances) ≡ state_in j c.instances
    at j = elim (Bool-cases (k == j)) [
      | inr e ↦ rw e refl
      | inl e ↦ ground (arith, e, same, found, ap (λ n. lookup n c.instances) ((name_iff k j).0 e))
    ]

-- A call leaves a Context of the kind, whether it returns or raises.
pub record Leaves (P : Context → Type 0) {A : Type 0} (r : Result A) : Type 0 where
  pub holds : P (context_of r)

module _ {P : Context → Type 0} (closed : IsClosed P) where
  pub returns : {A : Type 0} {a : A} {c : Context} → P c → Leaves P (done a c)
  unfolding context_of
  returns h = record { holds = h }

  pub raises : {A : Type 0} {e : Exception} {c : Context} → P c → Leaves P {A = A} (raised e c)
  unfolding context_of
  raises h = record { holds = h }

  pub sets :
      (mtime : ℕ) (s : SupvisorsInstanceStates) (k : Name) (c : Context)
      → (same_state s isolated && k == c.state_modes.local_identifier) ≡ false
      → P c
      → Leaves P (set_state mtime s k c)
  sets mtime s k c safe h = record { holds = closed.set mtime s k c safe h }

  pub and_then-Leaves :
      {A B : Type 0} (r : Result A) (f : A → Context → Result B)
      → Leaves P r
      → ((a : A) (c : Context) → P c → Leaves P (f a c))
      → Leaves P (and_then r f)
  unfolding and_then context_of
  and_then-Leaves (done a c) f h k = k a c h.holds
  and_then-Leaves (raised e c) f h k = record { holds = h.holds }

  pub if-Leaves :
      {A : Type 0} (b : Bool) (r s : Result A)
      → Leaves P r
      → Leaves P s
      → Leaves P (if b then r else s)
  if-Leaves true r s h k = h
  if-Leaves false r s h k = k

  pub option-Leaves :
      {A B : Type 0} (o : Option B) (r : Result A) (f : B → Result A)
      → Leaves P r
      → ((b : B) → o ≡ some b → Leaves P (f b))
      → Leaves P (elim o [ none ↦ r | some b ↦ f b ])
  option-Leaves none r f h k = h
  option-Leaves (some b) r f h k = k b refl

  pub invalidate-Leaves :
      (mtime : ℕ) (k : Name) (fence : Bool) (c : Context)
      → P c
      → Leaves P (invalidate mtime k fence c)
  unfolding invalidate
  invalidate-Leaves mtime k fence c h = elim (Bool-cases (k == c.state_modes.local_identifier)) [
    | inl e ↦ rw e (sets mtime stopped k c refl h)
    | inr e ↦ rw e (
        if-Leaves (fence || is_fencing c) _ _ (sets mtime isolated k c e h)
          (sets mtime stopped k c refl h))
  ]

  authorize-Leaves :
      (mtime : ℕ) (k : Name) (t : ℕ) (status : InstanceStatus) (c : Context)
      → P c
      → Leaves P (authorize mtime k t status c)
  unfolding authorize
  authorize-Leaves mtime k t status c h =
      if-Leaves (is_obsolete t status) _ _ (sets mtime stopped k c refl h) (
        and_then-Leaves _ _ (sets mtime checked k c refl h) (λ _ c' h'.
          if-Leaves (k == c'.state_modes.local_identifier) _ _ (sets mtime running k c' refl h')
            (returns h')))

  on_authorization_type-Leaves :
      (mtime : ℕ) (k : Name) (t : ℕ) (status : InstanceStatus) (a : AuthorizationTypes)
      (c : Context)
      → P c
      → Leaves P (on_authorization_type mtime k t status a c)
  unfolding on_authorization_type
  on_authorization_type-Leaves mtime k t status unknown c h = sets mtime stopped k c refl h
  on_authorization_type-Leaves mtime k t status not_authorized c h =
      invalidate-Leaves mtime k true c h
  on_authorization_type-Leaves mtime k t status inconsistent c h =
      invalidate-Leaves mtime k true c h
  on_authorization_type-Leaves mtime k t status authorized c h =
      authorize-Leaves mtime k t status c h

  pub on_authorization-Leaves :
      (mtime : ℕ) (k : Name) (event : AuthorizationEvent) (c : Context)
      → P c
      → Leaves P (on_authorization mtime k event c)
  unfolding on_authorization
  on_authorization-Leaves mtime k event c h =
      option-Leaves (lookup k c.instances) _ _ (raises h) (λ status e.
        if-Leaves (not (is_checking event.now_monotonic status)) _ _ (returns h)
          (on_authorization_type-Leaves mtime k event.info_monotonic status _ c h))

  pub activate_from-Leaves :
      (mtime : ℕ) (ks found : List Name) (c : Context)
      → P c
      → Leaves P (activate_from mtime found ks c)
  unfolding activate_from
  activate_from-Leaves mtime [] found c h = returns h
  activate_from-Leaves mtime (k ∷ ks) found c h =
      option-Leaves (lookup k c.instances) _ _ (raises h) (λ status e.
        and_then-Leaves _ _
          (if-Leaves (same_state status.state checked) _ _ (sets mtime running k c refl h)
            (returns h))
          (λ _ c' h'. activate_from-Leaves mtime ks _ c' h'))

  pub fail_inactive-Leaves :
      (mtime counter : ℕ) (ks : List Name) (c : Context)
      → P c
      → Leaves P (fail_inactive mtime counter ks c)
  unfolding fail_inactive
  fail_inactive-Leaves mtime counter [] c h = returns h
  fail_inactive-Leaves mtime counter (k ∷ ks) c h =
      option-Leaves (lookup k c.instances) _ _ (raises h) (λ status e.
        and_then-Leaves _ _
          (if-Leaves (is_inactive c.inactivity_ticks counter status) _ _
            (sets mtime failed k c refl h) (returns h))
          (λ _ c' h'. fail_inactive-Leaves mtime counter ks c' h'))
