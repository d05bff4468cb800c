-- ===== src/StateModes/Views.antt =====
-- supvisors/statemodes.py: what one instance declares of the others.
use supvisors.Prelude.{
  Bool, false, ◌&&◌, ◌||◌, [], ◌∷◌, none, some, Name, if◌then◌else◌, all, ◌≡◌, refl, arith,
  name_iff,
}
use supvisors.Prelude.Dict.{Dict, lookup, values}
use supvisors.Prelude.Dict.Values.{IsDict}
use supvisors.Prelude.NameSet.{NameSet, contains, add, contains-add}
use supvisors.Types.InstanceStates.{
  SupvisorsInstanceStates, running, stopped, isolated, same_state, is_running,
}
use supvisors.StateModes.{StateModes}

-- StateModes.STABLE_STATES
abbrev pub is_stable_state : SupvisorsInstanceStates → Bool
is_stable_state s = same_state s running || (same_state s stopped || same_state s isolated)

-- running_identifiers()
unfoldable pub running_in : Dict SupvisorsInstanceStates → NameSet
unfolding add
running_in [] = []
running_in ((k, s) ∷ d) = if is_running s then add k (running_in d) else running_in d

unfoldable pub running_identifiers : StateModes → NameSet
unfolding running_in
running_identifiers sm = running_in sm.instance_states

-- The loop of `get_stable_running_identifiers`, with the set found so far.
unfoldable pub stable_from : NameSet → Dict SupvisorsInstanceStates → NameSet
unfolding add
stable_from found [] = found
stable_from found ((k, s) ∷ d) =
    let rest = stable_from (if is_running s then add k found else found) d in
    if is_stable_state s then rest else []

unfoldable pub get_stable_running_identifiers : StateModes → NameSet
unfolding stable_from
get_stable_running_identifiers sm = stable_from [] sm.instance_states

abbrev pub runs : Name → Dict SupvisorsInstanceStates → Bool
runs k d = elim (lookup k d) [ none ↦ false | some s ↦ is_running s ]

pub contains-running_in :
    (k : Name) (d : Dict SupvisorsInstanceStates) → IsDict d → contains k (running_in d) ≡ runs k d
unfolding running_in lookup contains
contains-running_in k [] h = refl
contains-running_in k ((j, s) ∷ d) h =
    ground (arith, name_iff j k, contains-add j k (running_in d), contains-running_in k d h.1, h.0)

contains-stable_from :
    (found : NameSet) (k : Name) (d : Dict SupvisorsInstanceStates)
    → IsDict d
    → contains k (stable_from found d)
      ≡ (all is_stable_state (values d) && (contains k found || runs k d))
unfolding stable_from lookup contains values
contains-stable_from found k [] h = ground arith
contains-stable_from found k ((j, s) ∷ d) h = ground (
  arith,
  name_iff j k,
  contains-add j k found,
  contains-stable_from (if is_running s then add j found else found) k d h.1,
  h.0,
)

-- With each instance once in a view, its stable running identifiers are its running ones if all
-- of its instances are in stable states, and none otherwise.
pub contains-get_stable_running_identifiers :
    (sm : StateModes) (k : Name)
    → IsDict sm.instance_states
    → contains k (get_stable_running_identifiers sm)
      ≡ (all is_stable_state (values sm.instance_states) && runs k sm.instance_states)
unfolding get_stable_running_identifiers
contains-get_stable_running_identifiers sm k h = contains-stable_from [] k sm.instance_states h
