-- ===== src/Context/Discovered.antt =====
-- supvisors/context.py: what a discovery does to a Context that has all its instances from the mapper.
use supvisors.Prelude.{
  Bool, true, false, ◌||◌, Option, none, some, Name, if◌then◌else◌, ◌==◌, ◌≡◌, ◌⊎◌, refl, arith,
  Bool-cases, inl, inr, ◌∙◌, ap, subst, name_iff,
}
use supvisors.Prelude.Dict.{lookup, lookup-insert}
use supvisors.Types.InstanceStates.{stopped}
use supvisors.Instances.Status as Status
use supvisors.Mapper.InstanceId.{SupvisorsInstanceId}
use supvisors.StateModes.{Mapper, SupvisorsStateModes}
use supvisors.StateModes as Modes
use supvisors.Context.{Context, context_of, state_in}
use supvisors.Context.Effect.{shown, state_in-insert}
use supvisors.Context.Discovery.{
  check_candidate, has_address, map_instance, take_instance, add_discovered, on_discovery_event,
}

-- Whether the mapper has the instance.
abbrev pub is_mapped : Name → Context → Bool
is_mapped k c = elim (lookup k c.state_modes.mapper.instances) [ none ↦ false | some nick ↦ true ]

-- One more instance is known, in the state STOPPED.
pub record Discovered (k : Name) (c c' : Context) : Type 0 where
  pub unknown : is_mapped k c ≡ false
  pub states :
      (j : Name)
      → state_in j c'.instances ≡ (if k == j then some stopped else state_in j c.instances)
  pub views :
      (k == c.state_modes.local_identifier) ≡ false
      → (j : Name)
      → shown j c'.state_modes ≡ (if k == j then some stopped else shown j c.state_modes)
  pub local : c'.state_modes.local_identifier ≡ c.state_modes.local_identifier
  pub mapped : (j : Name) → is_mapped j c' ≡ (k == j || is_mapped j c)

modes-local :
    (k : Name) (m : SupvisorsStateModes)
    → ((Modes.add_instance k m).local_identifier ≡ m.local_identifier)
      × ((Modes.add_instance k m).mapper ≡ m.mapper)
unfolding Modes.add_instance
modes-local k m = ground arith

modes-shown :
    (k j : Name) (m : SupvisorsStateModes)
    → (k == m.local_identifier) ≡ false
    → shown j (Modes.add_instance k m) ≡ (if k == j then some stopped else shown j m)
unfolding Modes.add_instance
modes-shown k j m e =
    ground (arith, e, lookup-insert k j stopped m.local_state_modes.instance_states)

unmapped :
    (identifier nick : Name) (c : Context)
    → check_candidate identifier nick c.state_modes.mapper ≡ true
    → is_mapped identifier c ≡ false
unfolding check_candidate
unmapped identifier nick c h = ground (arith, h)

take_instance-Discovered :
    (i : SupvisorsInstanceId) (c : Context)
    → is_mapped i.identifier c ≡ false
    → Discovered i.identifier c (take_instance i c)
unfolding take_instance map_instance Status.new
take_instance-Discovered i c h =
    let m = record (c.state_modes) { mapper = map_instance i c.state_modes.mapper } in
    let (same, kept) = modes-local i.identifier m in
    record {
      unknown = h;
      states = λ j. state_in-insert i.identifier j (Status.new i.identifier) c.instances;
      views = λ e j. modes-shown i.identifier j m e;
      local = same;
      mapped = λ j. ground (
        arith,
        ap (λ (p : Mapper). lookup j p.instances) kept,
        lookup-insert i.identifier j i.nick_identifier c.state_modes.mapper.instances,
      );
    }

add_discovered-Discovered :
    (identifier : Name) (item : Option SupvisorsInstanceId) (c : Context)
    → ((i : SupvisorsInstanceId) → item ≡ some i → (i.identifier == identifier) ≡ true)
    → is_mapped identifier c ≡ false
    → let c' = context_of (add_discovered item c) in (c' ≡ c) ⊎ Discovered identifier c c'
unfolding add_discovered context_of
add_discovered-Discovered identifier none c named h = inl refl
add_discovered-Discovered identifier (some i) c named h =
    let same : i.identifier ≡ identifier = (name_iff i.identifier identifier).0 (named i refl) in
    elim (Bool-cases (has_address i)) [
      | inr e ↦ inl (rw (add_discovered, context_of, e) refl)
      | inl e ↦
          rw (add_discovered, context_of, e)
            (inr (
              subst (λ k. Discovered k c (take_instance i c)) same
                (take_instance-Discovered i c (ap (λ k. is_mapped k c) same ∙ h))))
    ]

-- A discovery under the published identifier leaves the Context as it is, or adds the instance.
pub on_discovery_event-Discovered :
    (identifier nick : Name) (item : Option SupvisorsInstanceId) (c : Context)
    → ((i : SupvisorsInstanceId) → item ≡ some i → (i.identifier == identifier) ≡ true)
    → let c' = context_of (on_discovery_event identifier nick item c) in
      (c' ≡ c) ⊎ Discovered identifier c c'
unfolding on_discovery_event context_of
on_discovery_event-Discovered identifier nick item c named =
    elim (Bool-cases (check_candidate identifier nick c.state_modes.mapper)) [
      | inr e ↦ inl (rw (on_discovery_event, e) refl)
      | inl e ↦
          rw (on_discovery_event, e)
            (add_discovered-Discovered identifier item c named (unmapped identifier nick c e))
    ]
