-- ===== src/Context/Transitions.antt =====
-- supvisors/instancestatus.py: the state of an instance moves along `_Transitions` only.
use supvisors.Prelude.{
  ℕ, true, List, some, Name, ◌==◌, ◌≡◌, ◌≢◌, refl, arith, Bool-cases, inl, inr, sym, ◌∙◌, ap, subst,
  name_iff, some_eq, all, none,
}
use supvisors.Types.InstanceStates.{SupvisorsInstanceStates, isolated}
use supvisors.Instances.Status.{check_transition}
use supvisors.Process.{Supervisor}
use supvisors.Context.{Context, state_in}
use supvisors.Context.Effect.{Accepted, set_state-Accepted}
use supvisors.Context.Discovered.{Discovered}
use supvisors.Context.Known.{AreMapped, IsKept, mapped-IsClosed}
use supvisors.Context.Closure.Calls.{after_all-closed}
use supvisors.Context.Handlers.{Call, is_named, after_all}

-- Some legal transitions, one after the other.
pub data Leads (s : SupvisorsInstanceStates) : SupvisorsInstanceStates → Type 0 where
  stay : Leads s s
  move : {t u : SupvisorsInstanceStates} → Leads s t → check_transition t u ≡ true → Leads s u

-- The instance `k` was in the state `s` and has made legal transitions since.
abbrev Moved : Name → SupvisorsInstanceStates → Context → Type 0
Moved k s c = (t : SupvisorsInstanceStates) × (state_in k c.instances ≡ some t) × Leads s t

Moved-step :
    (k j : Name) (s u : SupvisorsInstanceStates) (c c' : Context)
    → Moved k s c
    → Accepted j u c c'
    → Moved k s c'
Moved-step k j s u c c' (t, at, leads) a = elim (Bool-cases (j == k)) [
  | inr e ↦ (t, ground (arith, a.states k, e, at), leads)
  | inl e ↦ (u, ground (arith, a.states k, e), move leads (legal ((name_iff j k).0 e)))
]
  where
    legal : j ≡ k → check_transition t u ≡ true
    legal q =
        subst (λ x. check_transition x u ≡ true)
          (some_eq (sym a.found ∙ ap (λ n. state_in n c.instances) q ∙ at)) a.legal

Moved-IsKept : (k : Name) (s : SupvisorsInstanceStates) → IsKept (Moved k s)
Moved-IsKept k s = record {
  set = λ mtime u j c safe h. elim (set_state-Accepted mtime u j c) [
    | inl e ↦ subst (Moved k s) (sym e) h
    | inr a ↦ Moved-step k j s u c _ h a
  ];
  keep = λ c c' same (t, at, leads). (t, same.instances k ∙ at, leads);
  discover = λ j c c' d new remote (t, at, leads). (t, added j c c' d new t at, leads);
}
  where
    added :
        (j : Name) (c c' : Context)
        → Discovered j c c'
        → state_in j c.instances ≡ none
        → (t : SupvisorsInstanceStates) → state_in k c.instances ≡ some t
        → state_in k c'.instances ≡ some t
    added j c c' d new t at = elim (Bool-cases (j == k)) [
      | inr e ↦ ground (arith, d.states k, e, at)
      | inl e ↦
          absurd (ground (arith, ap (λ n. state_in n c.instances) ((name_iff j k).0 e), new, at))
    ]

pub after_all-Leads :
    (sup : Supervisor) (tick_period : ℕ) (calls : List Call) (c : Context) (k : Name)
    (s : SupvisorsInstanceStates)
    → all is_named calls ≡ true
    → AreMapped c
    → state_in k c.instances ≡ some s
    → (t : SupvisorsInstanceStates) × (state_in k (after_all sup tick_period calls c).instances
        ≡ some t)
      × Leads s t
after_all-Leads sup tick_period calls c k s named mapped h =
    (after_all-closed sup tick_period (mapped-IsClosed (Moved-IsKept k s)) calls c named
      (mapped, (s, h, stay))).1

Leads-isolated : {t : SupvisorsInstanceStates} → Leads isolated t → t ≡ isolated
unfolding check_transition
Leads-isolated stay = refl
Leads-isolated (move {t} {u} l e) =
    absurd (stuck u (subst (λ x. check_transition x u ≡ true) (Leads-isolated l) e))
  where
    stuck : (u : SupvisorsInstanceStates) → check_transition isolated u ≢ true
    stuck u e = ground arith

-- Where the mapper has the instances of the Context and the local one, and an instance is
-- discovered under the identifier that it publishes, an instance that is ISOLATED is ISOLATED
-- after any calls of on_discovery_event, load_processes without information, on_authorization,
-- activate_checked, on_local_tick_event, on_tick_event, on_timer_event, on_instance_failure and
-- invalidate_failed, in any order and with any exceptions.
pub after_all-isolated :
    (sup : Supervisor) (tick_period : ℕ) (calls : List Call) (c : Context) (k : Name)
    → all is_named calls ≡ true
    → AreMapped c
    → state_in k c.instances ≡ some isolated
    → state_in k (after_all sup tick_period calls c).instances ≡ some isolated
after_all-isolated sup tick_period calls c k named mapped h =
    let (t, at, leads) = after_all-Leads sup tick_period calls c k isolated named mapped h in
    at ∙ ap some (Leads-isolated leads)
