-- ===== src/Context/Effect.antt =====
-- supvisors/instancestatus.py: all that the setter of `state` can do to a Context.
use supvisors.Prelude.{
  ℕ, true, false, Option, some, Name, if◌then◌else◌, ◌==◌, ◌≡◌, ◌⊎◌, refl, arith, Bool-cases,
  Option-cases, inl, inr, sym, ◌∙◌, ap, subst,
}
use supvisors.Prelude.Dict.{Dict, lookup, insert, lookup-insert}
use supvisors.Types.InstanceStates.{SupvisorsInstanceStates, same_state}
use supvisors.Instances.Status.{InstanceStatus, check_transition, enter_state}
use supvisors.StateModes.{StateModes, SupvisorsStateModes}
use supvisors.StateModes.Updates.{
  write_instance_state, update_instance_state, update_instance_state_cases, drop_instance_cases,
  mark_instance_state, set_master_identifier,
}
use supvisors.Context.{Context, context_of, state_in}
use supvisors.Context.Setter.{accept_state, set_state}

-- The state that the local state and modes show of an instance.
abbrev pub shown : Name → SupvisorsStateModes → Option SupvisorsInstanceStates
shown k m = lookup k m.local_state_modes.instance_states

-- The transition of the instance `k` to `s` is a legal one, and `s` is written on both sides.
pub record Accepted (k : Name) (s : SupvisorsInstanceStates) (c c' : Context) : Type 0 where
  pub from : SupvisorsInstanceStates
  pub found : state_in k c.instances ≡ some from
  pub legal : check_transition from s ≡ true
  pub states :
      (j : Name) → state_in j c'.instances ≡ (if k == j then some s else state_in j c.instances)
  pub views :
      (j : Name) → shown j c'.state_modes ≡ (if k == j then some s else shown j c.state_modes)
  pub local : c'.state_modes.local_identifier ≡ c.state_modes.local_identifier
  pub mapper : c'.state_modes.mapper ≡ c.state_modes.mapper

pub state_in-insert :
    (k j : Name) (status : InstanceStatus) (d : Dict InstanceStatus)
    → state_in j (insert k status d) ≡ (if k == j then some status.state else state_in j d)
unfolding state_in
state_in-insert k j status d = ground (arith, lookup-insert k j status d)

enter_state-state :
    (s : SupvisorsInstanceStates) (mtime : ℕ) (status : InstanceStatus)
    → (enter_state s mtime status).state ≡ s
unfolding enter_state
enter_state-state s mtime status = ground arith

-- An update of the state and modes shows the new state, with the same mapper and local instance.
shown-update :
    (k j : Name) (s : SupvisorsInstanceStates) (m m' : SupvisorsStateModes)
    → update_instance_state k s m ≡ some m'
    → (shown j m' ≡ (if k == j then some s else shown j m))
      × (m'.local_identifier ≡ m.local_identifier)
      × (m'.mapper ≡ m.mapper)
unfolding write_instance_state mark_instance_state set_master_identifier
shown-update k j s m m' e =
    let (w, dropped, marked) = update_instance_state_cases k s m m' e in
    let (l, i, p, _, _) = drop_instance_cases k s (write_instance_state k s m) w dropped in
    ground (
      arith,
      i,
      marked,
      ap (λ sm. lookup j (StateModes.instance_states sm)) l,
      p,
      lookup-insert k j s m.local_state_modes.instance_states,
    )

accept_state-Accepted :
    (mtime : ℕ) (s : SupvisorsInstanceStates) (k : Name) (status : InstanceStatus) (c : Context)
    → lookup k c.instances ≡ some status
    → check_transition status.state s ≡ true
    → Accepted k s c (context_of (accept_state mtime s k status c))
unfolding accept_state context_of write_instance_state state_in
accept_state-Accepted mtime s k status c found legal =
    elim (Option-cases (update_instance_state k s c.state_modes)) [
      | inl e ↦
          rw (e, accept_state, context_of)
            (record {
              from = status.state;
              found = ground (arith, found);
              legal = legal;
              states = λ j. state_in-insert k j _ c.instances;
              views = λ j. lookup-insert k j s c.state_modes.local_state_modes.instance_states;
              local = refl;
              mapper = refl;
            })
      | inr (modes, e) ↦
          rw (e, accept_state, context_of)
            (record {
              from = status.state;
              found = ground (arith, found);
              legal = legal;
              states = λ j.
                  state_in-insert k j (enter_state s mtime status) c.instances
                  ∙ ap (λ t. if k == j then some t else state_in j c.instances)
                      (enter_state-state s mtime status);
              views = λ j. (shown-update k j s c.state_modes modes e).0;
              local = (shown-update k k s c.state_modes modes e).1;
              mapper = (shown-update k k s c.state_modes modes e).2;
            })
    ]

-- The setter leaves the Context as it is, or makes a legal transition.
pub set_state-Accepted :
    (mtime : ℕ) (s : SupvisorsInstanceStates) (k : Name) (c : Context)
    → (context_of (set_state mtime s k c) ≡ c) ⊎ Accepted k s c (context_of (set_state mtime s k c))
unfolding set_state context_of
set_state-Accepted mtime s k c = elim (Option-cases (lookup k c.instances)) [
  | inl e ↦ inl (ground (arith, e))
  | inr (status, e) ↦ elim (Bool-cases (same_state status.state s)) [
    | inl q ↦ inl (ground (arith, e, q))
    | inr q ↦ elim (Bool-cases (check_transition status.state s)) [
      | inr r ↦ inl (ground (arith, e, q, r))
      | inl r ↦ inr (
          subst (λ x. Accepted k s c (context_of x)) (sym (accepted status e q r))
            (accept_state-Accepted mtime s k status c e r))
    ]
  ]
]
  where
    accepted :
        (status : InstanceStatus)
        → lookup k c.instances ≡ some status
        → same_state status.state s ≡ false
        → check_transition status.state s ≡ true
        → set_state mtime s k c ≡ accept_state mtime s k status c
    accepted status e q r = ground (arith, e, q, r)
