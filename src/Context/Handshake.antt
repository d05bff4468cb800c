-- ===== src/Context/Handshake.antt =====
-- supvisors/context.py: `invalidate`, and the outcome of the handshake with an instance. `status` is
-- given by its identifier.
use supvisors.Prelude.{
  ℕ, Bool, true, false, ◌&&◌, ◌||◌, not, List, [], ◌∷◌, ◌++◌, Option, none, some, Name, ltb,
  if◌then◌else◌, ◌==◌,
}
use supvisors.Prelude.Dict.{lookup, keys}
use supvisors.Types.InstanceStates.{stopped, checked, running, isolated, same_state}
use supvisors.Types.FsmStates.{in_states, working_states}
use supvisors.Types.Strategies.{
  AuthorizationTypes, unknown, authorized, not_authorized, inconsistent,
}
use supvisors.Instances.Status.{InstanceStatus, is_checking}
use supvisors.StateModes.{master_state}
use supvisors.Context.{Context, Result, done, raised, key_error, and_then}
use supvisors.Context.Setter.{set_state}

-- `self.supvisors.options.auto_fence and self.state_modes.master_state in WORKING_STATES`
unfoldable pub is_fencing : Context → Bool
unfolding master_state
is_fencing c =
    c.auto_fence
    && elim (master_state c.state_modes) [ none ↦ false | some s ↦ in_states s working_states ]

-- invalidate(status, fence)
unfoldable pub invalidate : ℕ → Name → Bool → Context → Result (Unit {0})
unfolding set_state is_fencing
invalidate mtime identifier fence c =
    if identifier == c.state_modes.local_identifier
    then set_state mtime stopped identifier c
    else if fence || is_fencing c
    then set_state mtime isolated identifier c
    else set_state mtime stopped identifier c

-- The payload of an authorization event; `authorization` is `none` where the code is of no
-- AuthorizationTypes.
pub record AuthorizationEvent : Type 0 where
  pub now_monotonic : ℕ
  pub info_monotonic : ℕ
  pub authorization : Option AuthorizationTypes

-- `status.checking_event_time and info_timestamp < status.checking_event_time`
abbrev pub is_obsolete : ℕ → InstanceStatus → Bool
is_obsolete info_timestamp status = elim status.checking_event_time [
  | none ↦ false
  | some t ↦ ltb info_timestamp t
]

-- The remote instance is authorized; the local one goes straight to RUNNING.
unfoldable pub authorize : ℕ → Name → ℕ → InstanceStatus → Context → Result (Unit {0})
unfolding set_state and_then
authorize mtime identifier info_timestamp status c =
    if is_obsolete info_timestamp status
    then set_state mtime stopped identifier c
    else and_then (set_state mtime checked identifier c) (λ _ c'.
      if identifier == c'.state_modes.local_identifier
      then set_state mtime running identifier c'
      else done tt c')

unfoldable pub on_authorization_type :
    ℕ → Name → ℕ → InstanceStatus → AuthorizationTypes → Context → Result (Unit {0})
unfolding set_state invalidate authorize
on_authorization_type mtime identifier info_timestamp status unknown c =
    set_state mtime stopped identifier c
on_authorization_type mtime identifier info_timestamp status not_authorized c =
    invalidate mtime identifier true c
on_authorization_type mtime identifier info_timestamp status inconsistent c =
    invalidate mtime identifier true c
on_authorization_type mtime identifier info_timestamp status authorized c =
    authorize mtime identifier info_timestamp status c

-- on_authorization(status, event)
unfoldable pub on_authorization : ℕ → Name → AuthorizationEvent → Context → Result (Unit {0})
unfolding lookup is_checking on_authorization_type
on_authorization mtime identifier event c = elim (lookup identifier c.instances) [
  | none ↦ raised key_error c
  | some status ↦
      if not (is_checking event.now_monotonic status)
      then done tt c
      else on_authorization_type mtime identifier event.info_monotonic status
          (elim event.authorization [ none ↦ not_authorized | some a ↦ a ]) c
]

-- load_processes(status, None): the other instance has failed to tell its processes
unfoldable pub load_nothing : ℕ → Name → Context → Result (Unit {0})
unfolding set_state
load_nothing mtime identifier c = set_state mtime stopped identifier c

-- The loop of `activate_checked`, over the keys that are left and with the names found so far.
unfoldable pub activate_from : ℕ → List Name → List Name → Context → Result (List Name)
unfolding lookup set_state and_then
activate_from mtime found [] c = done found c
activate_from mtime found (k ∷ ks) c = elim (lookup k c.instances) [
  | none ↦ raised key_error c
  | some status ↦
      and_then (if same_state status.state checked then set_state mtime running k c else done tt c)
        (λ _ c'.
          activate_from mtime (if same_state status.state checked then found ++ k ∷ [] else found)
            ks c')
]

-- activate_checked()
unfoldable pub activate_checked : ℕ → Context → Result (List Name)
unfolding keys activate_from
activate_checked mtime c = activate_from mtime [] (keys c.instances) c
