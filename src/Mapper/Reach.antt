-- ===== src/Mapper/Reach.antt =====
-- supvisors/internal_com/mapper.py: SupvisorsMapper after any calls of the methods that change it.
use supvisors.Prelude.{ℕ, ◌≡◌, refl, ap, subst, ◌∙◌, true, List, Option, none, some, Name, name_iff}
use supvisors.Prelude.Dict.{lookup, insert, keys}
use supvisors.Mapper.{SupvisorsMapper, new}
use supvisors.Mapper.Network.{LocalNetwork, NetworkPayload, from_payload, from_network}
use supvisors.Mapper.InstanceId.{SupvisorsInstanceId}
use supvisors.Mapper.Identify.{
  assign_stereotypes, add_instance, add_instances, add_node, find_local_identifier, configure,
  view_or, identify,
}
use supvisors.Mapper.Known.{is_some, IsKnown, all_named-lookup, add_node-known}
use supvisors.Mapper.History.{
  KeepsKnown, is_some-inserted, put_instance, assign_stereotypes-KeepsKnown,
  add_instance-KeepsKnown, add_instances-KeepsKnown, find_local-KeepsKnown,
}

new-IsKnown : (network : LocalNetwork) → IsKnown (new network)
unfolding new
new-IsKnown network = record { named = refl; nicks = refl; nodes = refl; stereotypes = refl }

module _ (configured : Name) (server_port : ℕ) where
  configure-KeepsKnown :
      (supvisors_list : List (Option SupvisorsInstanceId)) (stereotypes core_list : List Name)
      (m : SupvisorsMapper)
      → IsKnown m
      → KeepsKnown (configure configured server_port supvisors_list stereotypes core_list m)
  unfolding configure
  configure-KeepsKnown supvisors_list stereotypes core_list m h =
      added (add_instances supvisors_list m) (add_instances-KeepsKnown supvisors_list m h)
    where
      found :
          (o : Option SupvisorsMapper)
          → KeepsKnown o
          → KeepsKnown (elim o [
            | none ↦ none
            | some m'' ↦ some (record m'' { core_identifiers = core_list })
          ])
      found none g = tt
      found (some m'') g = record {
        named = g.named;
        nicks = g.nicks;
        nodes = g.nodes;
        stereotypes = g.stereotypes;
      }

      added :
          (o : Option SupvisorsMapper)
          → KeepsKnown o
          → KeepsKnown (elim o [
            | none ↦ none
            | some m' ↦
                elim (find_local_identifier configured server_port stereotypes
                  (record m' { initial_identifiers = keys m'.instances })) [
                    | none ↦ none
                    | some m'' ↦ some (record m'' { core_identifiers = core_list })
                  ]
          ])
      added none g = tt
      added (some m') g = found _ (
          find_local-KeepsKnown configured server_port stereotypes
            (record m' { initial_identifiers = keys m'.instances })
            record {
              named = g.named;
              nicks = g.nicks;
              nodes = g.nodes;
              stereotypes = g.stereotypes;
            })

module _ (ip_network : Name → Name → Option Name)
    (gethostbyaddr : Name → Option (Name × List Name × List Name)) (getfqdn : Name → Name)
    (found : LocalNetwork) where
  identify-KeepsKnown :
      (k : Name) (network : NetworkPayload) (stereotypes : List Name) (m : SupvisorsMapper)
      → IsKnown m
      → KeepsKnown (identify ip_network gethostbyaddr getfqdn found k network stereotypes m)
  unfolding identify
  identify-KeepsKnown k network stereotypes m h =
      looked_up (lookup k m.instances) refl (from_payload ip_network network found)
    where
      looked_up :
          (o : Option SupvisorsInstanceId)
          → lookup k m.instances ≡ o
          → (r : Option LocalNetwork)
          → KeepsKnown (elim o [
            | none ↦ none
            | some i ↦ elim r [
              | none ↦ none
              | some remote ↦ assign_stereotypes k stereotypes (record m {
                instances =
                    insert k
                      (record i {
                        remote_view = some remote;
                        local_view = some (
                            view_or (from_network gethostbyaddr getfqdn remote found) i.local_view);
                      })
                      m.instances;
                nodes = add_node remote.machine_id i.identifier m.nodes;
              })
            ]
          ])
      looked_up none e r = tt
      looked_up (some i) e none = tt
      looked_up (some i) e (some remote) =
          let i' = record i {
            remote_view = some remote;
            local_view =
                some (view_or (from_network gethostbyaddr getfqdn remote found) i.local_view);
          } in
          let n = all_named-lookup k i m.instances e h.named in
          let p = put_instance k i' m n h in
          let known : is_some (lookup i.identifier (insert k i' m.instances)) ≡ true =
            ap (λ x. is_some (lookup x (insert k i' m.instances))) ((name_iff i.identifier k).0 n)
            ∙ is_some-inserted k i' m.instances in
          assign_stereotypes-KeepsKnown k stereotypes _ record {
            named = p.named;
            nicks = p.nicks;
            nodes = add_node-known _ remote.machine_id i.identifier m.nodes known p.nodes;
            stereotypes = p.stereotypes;
          }

  -- A mapper after any calls, with any answers of the network.
  pub data Reach (configured : Name) (server_port : ℕ) : SupvisorsMapper → Type 0 where
    start : (network : LocalNetwork) → Reach configured server_port (new network)
    configured_by :
        {m m' : SupvisorsMapper} (supvisors_list : List (Option SupvisorsInstanceId))
        (stereotypes core_list : List Name)
        → Reach configured server_port m
        → configure configured server_port supvisors_list stereotypes core_list m ≡ some m'
        → Reach configured server_port m'
    discovered :
        {m m' : SupvisorsMapper} (i : Option SupvisorsInstanceId)
        → Reach configured server_port m
        → add_instance i m ≡ some m'
        → Reach configured server_port m'
    identified :
        {m m' : SupvisorsMapper} (k : Name) (network : NetworkPayload) (stereotypes : List Name)
        → Reach configured server_port m
        → identify ip_network gethostbyaddr getfqdn found k network stereotypes m ≡ some m'
        → Reach configured server_port m'

  pub Reach-IsKnown :
      {configured : Name} {server_port : ℕ} {m : SupvisorsMapper}
      → Reach configured server_port m
      → IsKnown m
  Reach-IsKnown (start network) = new-IsKnown network
  Reach-IsKnown {configured} {server_port} (configured_by {m = m} l s c r e) =
      subst KeepsKnown e (configure-KeepsKnown configured server_port l s c m (Reach-IsKnown r))
  Reach-IsKnown (discovered {m = m} i r e) =
      subst KeepsKnown e (add_instance-KeepsKnown i m (Reach-IsKnown r))
  Reach-IsKnown (identified {m = m} k n s r e) =
      subst KeepsKnown e (identify-KeepsKnown k n s m (Reach-IsKnown r))
