-- ===== src/Mapper/History.antt =====
-- supvisors/internal_com/mapper.py: SupvisorsMapper after any calls of the methods that change it.
use supvisors.Prelude.{
  ℕ, ◌≡◌, refl, ap, ◌∙◌, inl, inr, true, not, ◌&&◌, List, [], ◌∷◌, Option, none, some, Name, ◌==◌,
  name_self, keep, Bool-cases, arith, if◌then◌else◌,
}
use supvisors.Prelude.Dict.{Dict, lookup, insert, keys, values, lookup-insert}
use supvisors.Process.Rules.{is_set}
use supvisors.Mapper.{SupvisorsMapper}
use supvisors.Mapper.InstanceId.{SupvisorsInstanceId, ip_address}
use supvisors.Mapper.Identify.{
  store_stereotypes, assign_stereotypes, add_instance, add_instances, name_local, identifiers_of,
  is_local, find_local_identifier,
}
use supvisors.Mapper.Known.{
  is_some, knows, all_named-insert, all_named-lookup, IsKnown, all_known-more, nicks_known-more,
  nicks_known-insert, store_stereotypes-known,
}

-- What a method leaves, if it raises nothing.
abbrev pub KeepsKnown : Option SupvisorsMapper → Type 0
KeepsKnown none = Unit
KeepsKnown (some m) = IsKnown m

is_some-insert :
    (k : Name) (i : SupvisorsInstanceId) (d : Dict SupvisorsInstanceId) (j : Name)
    → is_some (lookup j d) ≡ true
    → is_some (lookup j (insert k i d)) ≡ true
is_some-insert k i d j h = ground (arith, lookup-insert k j i d, h)

pub is_some-inserted :
    (k : Name) (i : SupvisorsInstanceId) (d : Dict SupvisorsInstanceId)
    → is_some (lookup k (insert k i d)) ≡ true
is_some-inserted k i d = ground (arith, lookup-insert k k i d, name_self k)

-- One more instance, or another one under an identifier, leaves what was known known.
pub put_instance :
    (k : Name) (i : SupvisorsInstanceId) (m : SupvisorsMapper)
    → (i.identifier == k) ≡ true
    → IsKnown m
    → IsKnown (record m { instances = insert k i m.instances })
put_instance k i m n h = record {
  named = all_named-insert k i m.instances n h.named;
  nicks = nicks_known-more (knows m) _ (is_some-insert k i m.instances) m.nick_identifiers h.nicks;
  nodes = all_known-more (knows m) _ (is_some-insert k i m.instances) m.nodes h.nodes;
  stereotypes =
      all_known-more (knows m) _ (is_some-insert k i m.instances) m.stereotypes h.stereotypes;
}

pub assign_stereotypes-KeepsKnown :
    (k : Name) (stereotypes : List Name) (m : SupvisorsMapper)
    → IsKnown m
    → KeepsKnown (assign_stereotypes k stereotypes m)
unfolding assign_stereotypes
assign_stereotypes-KeepsKnown k stereotypes m h = found (lookup k m.instances) refl
  where
    found :
        (o : Option SupvisorsInstanceId)
        → lookup k m.instances ≡ o
        → KeepsKnown (elim o [
          | none ↦ none
          | some i ↦ some (
              if is_set stereotypes && not (is_set i.stereotypes)
              then record m {
                instances = insert k (record i { stereotypes = stereotypes }) m.instances;
                stereotypes = store_stereotypes stereotypes k (keys m.instances) m.stereotypes;
              }
              else m)
        ])
    found none e = tt
    found (some i) e = elim (Bool-cases (is_set stereotypes && not (is_set i.stereotypes))) [
      | inl q ↦ rw q (
          let i' = record i { stereotypes = stereotypes } in
          let p = put_instance k i' m (all_named-lookup k i m.instances e h.named) h in
          record {
            named = p.named;
            nicks = p.nicks;
            nodes = p.nodes;
            stereotypes =
                store_stereotypes-known _ stereotypes k (keys m.instances) m.stereotypes
                  (is_some-inserted k i' m.instances) p.stereotypes;
          })
      | inr q ↦ rw q h
    ]

pub add_instance-KeepsKnown :
    (i : Option SupvisorsInstanceId) (m : SupvisorsMapper)
    → IsKnown m
    → KeepsKnown (add_instance i m)
unfolding add_instance
add_instance-KeepsKnown none m h = tt
add_instance-KeepsKnown (some i) m h = found (ip_address i)
  where
    found :
        (o : Option Name)
        → KeepsKnown (elim o [
          | none ↦ none
          | some ip ↦
              if ip == ""
              then none
              else some (record m {
                instances = insert i.identifier i m.instances;
                nick_identifiers = insert i.nick_identifier i.identifier m.nick_identifiers;
              })
        ])
    found none = tt
    found (some ip) = elim (Bool-cases (ip == "")) [
      | inl q ↦ rw q tt
      | inr q ↦ rw q (
          let p = put_instance i.identifier i m (name_self i.identifier) h in
          record {
            named = p.named;
            nicks =
                nicks_known-insert _ i.nick_identifier i.identifier m.nick_identifiers
                  (is_some-inserted i.identifier i m.instances) p.nicks;
            nodes = p.nodes;
            stereotypes = p.stereotypes;
          })
    ]

pub add_instances-KeepsKnown :
    (is : List (Option SupvisorsInstanceId)) (m : SupvisorsMapper)
    → IsKnown m
    → KeepsKnown (add_instances is m)
unfolding add_instances
add_instances-KeepsKnown [] m h = h
add_instances-KeepsKnown (i ∷ is) m h =
    next (add_instance i m) (add_instance-KeepsKnown i m h)
      (λ m' h'. add_instances-KeepsKnown is m' h')
  where
    next :
        (o : Option SupvisorsMapper)
        → KeepsKnown o
        → ((m' : SupvisorsMapper) → IsKnown m' → KeepsKnown (add_instances is m'))
        → KeepsKnown (elim o [ none ↦ none | some m' ↦ add_instances is m' ])
    next none h f = tt
    next (some m') h f = f m' h

name_local-identifier :
    (configured : Name) (i : SupvisorsInstanceId)
    → (name_local configured i).identifier ≡ i.identifier
unfolding name_local
name_local-identifier configured i = ground arith

-- The local instance has its view, and maybe its nickname, set.
local_known :
    (configured k : Name) (stereotypes : List Name) (m : SupvisorsMapper)
    → IsKnown m
    → KeepsKnown (elim (lookup k m.instances) [
      | none ↦ none
      | some i ↦ assign_stereotypes k stereotypes (record m {
        local_identifier = some k;
        instances =
            insert k
              (name_local configured (record i { local_view = some m.local_network }))
              m.instances;
      })
    ])
local_known configured k stereotypes m h = found (lookup k m.instances) refl
  where
    found :
        (o : Option SupvisorsInstanceId)
        → lookup k m.instances ≡ o
        → KeepsKnown (elim o [
          | none ↦ none
          | some i ↦ assign_stereotypes k stereotypes (record m {
            local_identifier = some k;
            instances =
                insert k
                  (name_local configured (record i { local_view = some m.local_network }))
                  m.instances;
          })
        ])
    found none e = tt
    found (some i) e =
        let i' = record i { local_view = some m.local_network } in
        let n =
          ap (λ x. x == k) (name_local-identifier configured i')
          ∙ all_named-lookup k i m.instances e h.named in
        let p = put_instance k (name_local configured i') m n h in
        assign_stereotypes-KeepsKnown k stereotypes _
          record { named = p.named; nicks = p.nicks; nodes = p.nodes; stereotypes = p.stereotypes }

pub find_local-KeepsKnown :
    (configured : Name) (server_port : ℕ) (stereotypes : List Name) (m : SupvisorsMapper)
    → IsKnown m
    → KeepsKnown (find_local_identifier configured server_port stereotypes m)
unfolding find_local_identifier
find_local-KeepsKnown configured server_port stereotypes m h =
    chosen (identifiers_of (keep (is_local m.local_network server_port) (values m.instances)))
  where
    chosen :
        (l : List Name)
        → KeepsKnown (elim l [
          | [] ↦ none
          | k ∷ [] ↦ elim (lookup k m.instances) [
            | none ↦ none
            | some i ↦ assign_stereotypes k stereotypes (record m {
              local_identifier = some k;
              instances =
                  insert k
                    (name_local configured (record i { local_view = some m.local_network }))
                    m.instances;
            })
          ]
          | _ ∷ _ ∷ _ ↦ none
        ])
    chosen [] = tt
    chosen (k ∷ []) = local_known configured k stereotypes m h
    chosen (k ∷ j ∷ l) = tt
