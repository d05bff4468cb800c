-- ===== src/Mapper/Identify.antt =====
-- supvisors/internal_com/mapper.py: how SupvisorsMapper learns the instances.
-- `none` is an exception: ValueError, or the KeyError of an unknown identifier.
use supvisors.Prelude.{
  ℕ, Bool, true, false, not, ◌&&◌, List, [], ◌∷◌, ◌++◌, Option, none, some, Name, ◌==◌, nat_beq,
  keep, if◌then◌else◌,
}
use supvisors.Prelude.Dict.{Dict, lookup, insert, keys, values}
use supvisors.Prelude.NameSet.{contains}
use supvisors.Process.Rules.{is_set}
use supvisors.Mapper.{SupvisorsMapper}
use supvisors.Mapper.Network.{
  LocalNetwork, NetworkPayload, from_payload, from_network, host_matches,
}
use supvisors.Mapper.InstanceId.{SupvisorsInstanceId, default_identifier, ip_address}

-- The loop over `stereotypes`: a list per stereotype, in the order of the instances.
unfoldable pub store_stereotypes :
    List Name → Name → List Name → Dict (List Name) → Dict (List Name)
unfolding lookup insert contains
store_stereotypes [] k order d = d
store_stereotypes (s ∷ ss) k order d = store_stereotypes ss k order (
    insert s
      (elim (lookup s d) [
        | none ↦ k ∷ []
        | some ks ↦ keep (λ x. contains x (ks ++ (k ∷ []))) order
      ])
      d)

-- _assign_stereotypes(identifier, stereotypes)
unfoldable pub assign_stereotypes : Name → List Name → SupvisorsMapper → Option SupvisorsMapper
unfolding store_stereotypes lookup insert keys
assign_stereotypes k stereotypes m = elim (lookup k m.instances) [
  | none ↦ none
  | some i ↦ some (
      if is_set stereotypes && not (is_set i.stereotypes)
      then record m {
        instances = insert k (record i { stereotypes = stereotypes }) m.instances;
        stereotypes = store_stereotypes stereotypes k (keys m.instances) m.stereotypes;
      }
      else m)
]

-- add_instance(item), of what SupvisorsInstanceId(item) is
unfoldable pub add_instance : Option SupvisorsInstanceId → SupvisorsMapper → Option SupvisorsMapper
unfolding insert ip_address
add_instance none m = none
add_instance (some i) m = elim (ip_address i) [
  | none ↦ none
  | some ip ↦
      if ip == ""
      then none
      else some (record m {
        instances = insert i.identifier i m.instances;
        nick_identifiers = insert i.nick_identifier i.identifier m.nick_identifiers;
      })
]

unfoldable pub add_instances :
    List (Option SupvisorsInstanceId) → SupvisorsMapper → Option SupvisorsMapper
unfolding add_instance
add_instances [] m = some m
add_instances (i ∷ is) m = elim (add_instance i m) [ none ↦ none | some m' ↦ add_instances is m' ]

-- The nickname that Supervisor has been given, if it has one and `supvisors_list` has none.
unfoldable pub name_local : Name → SupvisorsInstanceId → SupvisorsInstanceId
name_local configured i =
    if not (configured == default_identifier) && not i.user_nickname
    then record i { nick_identifier = configured }
    else i

-- The entry of `nodes` for one more instance on the machine.
unfoldable pub add_node : Name → Name → Dict (List Name) → Dict (List Name)
unfolding lookup insert contains
add_node machine k nodes = elim (lookup machine nodes) [
  | none ↦ insert machine (k ∷ []) nodes
  | some ks ↦ if contains k ks then nodes else insert machine (ks ++ (k ∷ [])) nodes
]

-- The tests of `_find_local_identifier` on one instance.
unfoldable pub is_local : LocalNetwork → ℕ → SupvisorsInstanceId → Bool
unfolding host_matches
is_local network server_port i = host_matches i.host_id network && nat_beq i.http_port server_port

abbrev pub identifiers_of : List SupvisorsInstanceId → List Name
identifiers_of [] = []
identifiers_of (i ∷ is) = i.identifier ∷ identifiers_of is

-- `configured` is the identifier of the local Supervisor.
module _ (configured : Name) (server_port : ℕ) where
  unfoldable pub find_local_identifier : List Name → SupvisorsMapper → Option SupvisorsMapper
  unfolding is_local name_local assign_stereotypes lookup insert values
  find_local_identifier stereotypes m =
      elim (identifiers_of (keep (is_local m.local_network server_port) (values m.instances))) [
        | [] ↦ none
        | k ∷ [] ↦ elim (lookup k m.instances) [
          | none ↦ none
          | some i ↦
              let i' = name_local configured (record i { local_view = some m.local_network }) in
              assign_stereotypes k stereotypes
                (record m { local_identifier = some k; instances = insert k i' m.instances })
        ]
        | _ ∷ _ ∷ _ ↦ none
      ]

  -- configure(supvisors_list, stereotypes, core_list), whose `supvisors_list` is that of the
  -- instances it describes, the local one where the option is empty
  unfoldable pub configure :
      List (Option SupvisorsInstanceId)
      → List Name
      → List Name
      → SupvisorsMapper
      → Option SupvisorsMapper
  unfolding add_instances find_local_identifier keys
  configure supvisors_list stereotypes core_list m = elim (add_instances supvisors_list m) [
    | none ↦ none
    | some m' ↦
        elim (find_local_identifier stereotypes
          (record m' { initial_identifiers = keys m'.instances })) [
            | none ↦ none
            | some m'' ↦ some (record m'' { core_identifiers = core_list })
          ]
  ]

abbrev pub view_or : LocalNetwork → Option LocalNetwork → LocalNetwork
view_or default none = default
view_or default (some view) = view

-- `found` is the network that LocalNetwork() finds on the local host; the other parameters are those
-- of Mapper.Network.
module _ (ip_network : Name → Name → Option Name)
    (gethostbyaddr : Name → Option (Name × List Name × List Name)) (getfqdn : Name → Name)
    (found : LocalNetwork) where
  unfoldable pub identify :
      Name → NetworkPayload → List Name → SupvisorsMapper → Option SupvisorsMapper
  unfolding from_payload from_network add_node assign_stereotypes lookup insert
  identify k network stereotypes m = elim (lookup k m.instances) [
    | none ↦ none
    | some i ↦ elim (from_payload ip_network network found) [
      | none ↦ none
      | some remote ↦
          let local = view_or (from_network gethostbyaddr getfqdn remote found) i.local_view in
          assign_stereotypes k stereotypes (record m {
            instances =
                insert k (record i { remote_view = some remote; local_view = some local })
                  m.instances;
            nodes = add_node remote.machine_id i.identifier m.nodes;
          })
    ]
  ]

-- check_candidate(identifier, nick_identifier)
unfoldable pub check_candidate : Name → Name → SupvisorsMapper → Bool
unfolding lookup
check_candidate identifier nick_identifier m = elim (lookup nick_identifier m.nick_identifiers) [
  | some known ↦ false
  | none ↦ elim (lookup identifier m.instances) [ some i ↦ false | none ↦ true ]
]
