-- ===== src/Mapper/Sound.antt =====
-- supvisors/internal_com/mapper.py: what `filter` and `nodes` of a SupvisorsMapper hold.
use supvisors.Prelude.{
  ℕ, ◌≡◌, refl, Bool, true, false, not, ◌&&◌, List, [], ◌∷◌, Option, none, some, Name, ◌==◌,
  name_iff, keep, all, arith,
}
use supvisors.Prelude.Dict.{lookup}
use supvisors.Prelude.NameSet.{contains}
use supvisors.Mapper.{SupvisorsMapper}
use supvisors.Mapper.Network.{LocalNetwork}
use supvisors.Mapper.InstanceId.{SupvisorsInstanceId}
use supvisors.Mapper.Filter.{expand, expand_all, from_keys, filter}
use supvisors.Mapper.Reach.{Reach, Reach-IsKnown}
use supvisors.Mapper.Known.{
  all-append, knows, all_known, IsKnown, all_known-lookup, nicks_known-lookup,
}

expand-known : (m : SupvisorsMapper) (k : Name) → IsKnown m → all (knows m) (expand m k) ≡ true
unfolding expand
expand-known m k h = by_instance (lookup k m.instances) refl
  where
    by_stereotype :
        (o : Option (List Name))
        → lookup k m.stereotypes ≡ o
        → all (knows m) (elim o [ some ks ↦ ks | none ↦ [] ]) ≡ true
    by_stereotype none e = refl
    by_stereotype (some ks) e = all_known-lookup (knows m) k m.stereotypes ks e h.stereotypes

    by_nick :
        (o : Option Name)
        → lookup k m.nick_identifiers ≡ o
        → all (knows m) (elim o [
          | some j ↦ j ∷ []
          | none ↦ elim (lookup k m.stereotypes) [ some ks ↦ ks | none ↦ [] ]
        ])
          ≡ true
    by_nick none e = by_stereotype (lookup k m.stereotypes) refl
    by_nick (some j) e =
        ground (arith, nicks_known-lookup (knows m) k m.nick_identifiers j e h.nicks)

    by_instance :
        (o : Option SupvisorsInstanceId)
        → lookup k m.instances ≡ o
        → all (knows m) (elim o [
          | some i ↦ k ∷ []
          | none ↦ elim (lookup k m.nick_identifiers) [
            | some j ↦ j ∷ []
            | none ↦ elim (lookup k m.stereotypes) [ some ks ↦ ks | none ↦ [] ]
          ]
        ])
          ≡ true
    by_instance none e = by_nick (lookup k m.nick_identifiers) refl
    by_instance (some i) e = rw e refl

expand_all-known :
    (m : SupvisorsMapper) (ks : List Name) → IsKnown m → all (knows m) (expand_all m ks) ≡ true
unfolding expand_all
expand_all-known m [] h = refl
expand_all-known m (k ∷ ks) h =
    all-append (knows m) (expand m k) (expand_all m ks) (expand-known m k h)
      (expand_all-known m ks h)

all-keep : (p q : Name → Bool) (ks : List Name) → all p ks ≡ true → all p (keep q ks) ≡ true
all-keep p q [] h = refl
all-keep p q (k ∷ ks) h = ground (arith, h, all-keep p q ks)

from_keys-known : (p : Name → Bool) (ks : List Name) → all p ks ≡ true → all p (from_keys ks) ≡ true
unfolding from_keys
from_keys-known p [] h = refl
from_keys-known p (k ∷ ks) h =
    ground (arith, h, all-keep p (λ j. not (k == j)) (from_keys ks), from_keys-known p ks)

-- Whether each name stands there once.
unfoldable pub is_distinct : List Name → Bool
unfolding contains
is_distinct [] = true
is_distinct (k ∷ ks) = not (contains k ks) && is_distinct ks

contains-keep :
    (q : Name → Bool) (k : Name) (ks : List Name)
    → contains k ks ≡ false
    → contains k (keep q ks) ≡ false
unfolding contains
contains-keep q k [] h = refl
contains-keep q k (j ∷ ks) h = ground (arith, h, contains-keep q k ks)

not_kept : (k : Name) (ks : List Name) → contains k (keep (λ j. not (k == j)) ks) ≡ false
unfolding contains
not_kept k [] = refl
not_kept k (j ∷ ks) = ground (arith, name_iff k j, name_iff j k, not_kept k ks)

keep-distinct :
    (q : Name → Bool) (ks : List Name) → is_distinct ks ≡ true → is_distinct (keep q ks) ≡ true
unfolding is_distinct
keep-distinct q [] h = refl
keep-distinct q (k ∷ ks) h = ground (arith, h, contains-keep q k ks, keep-distinct q ks)

from_keys-distinct : (ks : List Name) → is_distinct (from_keys ks) ≡ true
unfolding from_keys is_distinct
from_keys-distinct [] = refl
from_keys-distinct (k ∷ ks) = ground (
  arith,
  not_kept k (from_keys ks),
  keep-distinct (λ j. not (k == j)) (from_keys ks),
  from_keys-distinct ks,
)

-- What the mapper answers with: known identifiers, each once, and nodes of known instances.
pub record IsSound (m : SupvisorsMapper) : Type 0 where
  pub filtered : (identifiers : List Name) → all (knows m) (filter m identifiers) ≡ true
  pub once : (identifiers : List Name) → is_distinct (filter m identifiers) ≡ true
  pub nodes : all_known (knows m) m.nodes ≡ true

IsKnown-IsSound : (m : SupvisorsMapper) → IsKnown m → IsSound m
unfolding filter
IsKnown-IsSound m h = record {
  filtered = λ identifiers.
      from_keys-known (knows m) (expand_all m identifiers) (expand_all-known m identifiers h);
  once = λ identifiers. from_keys-distinct (expand_all m identifiers);
  nodes = h.nodes;
}

module _ (ip_network : Name → Name → Option Name)
    (gethostbyaddr : Name → Option (Name × List Name × List Name)) (getfqdn : Name → Name)
    (found : LocalNetwork) where
  -- Whatever calls of configure, add_instance and identify have made a mapper, with any answers
  -- of the network, filter gives only identifiers of instances that the mapper knows, each once,
  -- and the nodes list only such identifiers.
  pub Reach-IsSound :
      {configured : Name} {server_port : ℕ} {m : SupvisorsMapper}
      → Reach ip_network gethostbyaddr getfqdn found configured server_port m
      → IsSound m
  Reach-IsSound {m = m} r =
      IsKnown-IsSound m (Reach-IsKnown ip_network gethostbyaddr getfqdn found r)
