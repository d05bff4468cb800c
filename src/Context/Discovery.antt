-- ===== src/Context/Discovery.antt =====
-- supvisors/context.py: an instance that is discovered. `none` for it is the ValueError of an item
-- that is no identification of an instance.
use supvisors.Prelude.{Bool, true, false, Option, none, some, Name, if◌then◌else◌, ◌==◌}
use supvisors.Prelude.Dict.{lookup, insert}
use supvisors.Mapper.InstanceId.{SupvisorsInstanceId, ip_address}
use supvisors.Instances.Status as Status
use supvisors.StateModes.{Mapper, SupvisorsStateModes}
use supvisors.StateModes as Modes
use supvisors.Context.{Context, Result, done, raised, value_error}

-- SupvisorsMapper.check_candidate(identifier, nick_identifier)
unfoldable pub check_candidate : Name → Name → Mapper → Bool
unfolding lookup
check_candidate identifier nick_identifier m = elim (lookup nick_identifier m.nick_identifiers) [
  | some known ↦ false
  | none ↦ elim (lookup identifier m.instances) [ some nick ↦ false | none ↦ true ]
]

-- `if supvisors_id.ip_address`
abbrev pub has_address : SupvisorsInstanceId → Bool
has_address i = elim (ip_address i) [ none ↦ false | some ip ↦ if ip == "" then false else true ]

-- SupvisorsMapper.add_instance, for an instance with an address
unfoldable pub map_instance : SupvisorsInstanceId → Mapper → Mapper
unfolding insert
map_instance i m = record m {
  instances = insert i.identifier i.nick_identifier m.instances;
  nick_identifiers = insert i.nick_identifier i.identifier m.nick_identifiers;
}

-- What follows SupvisorsMapper.add_instance.
unfoldable pub take_instance : SupvisorsInstanceId → Context → Context
unfolding insert map_instance Status.new Modes.add_instance
take_instance i c = record c {
  instances = insert i.identifier (Status.new i.identifier) c.instances;
  state_modes =
      Modes.add_instance i.identifier
        (record (c.state_modes) { mapper = map_instance i c.state_modes.mapper });
}

-- The new instance, where the item describes one.
unfoldable pub add_discovered : Option SupvisorsInstanceId → Context → Result (Unit {0})
unfolding ip_address take_instance
add_discovered none c = raised value_error c
add_discovered (some i) c =
    if has_address i then done tt (take_instance i c) else raised value_error c

-- on_discovery_event(identifier, nick_identifier), of what the SupvisorsInstanceId of both is
unfoldable pub on_discovery_event :
    Name → Name → Option SupvisorsInstanceId → Context → Result (Unit {0})
unfolding check_candidate add_discovered
on_discovery_event identifier nick_identifier item c =
    if check_candidate identifier nick_identifier c.state_modes.mapper
    then add_discovered item c
    else done tt c
