-- ===== src/Mapper/Filter.antt =====
-- supvisors/internal_com/mapper.py: `filter`, which names become Supvisors identifiers.
use supvisors.Prelude.{not, List, [], ◌∷◌, ◌++◌, none, some, Name, ◌==◌, keep}
use supvisors.Prelude.Dict.{lookup}
use supvisors.Mapper.{SupvisorsMapper}

-- The identifiers that one element of the list stands for.
unfoldable pub expand : SupvisorsMapper → Name → List Name
unfolding lookup
expand m k = elim (lookup k m.instances) [
  | some i ↦ k ∷ []
  | none ↦ elim (lookup k m.nick_identifiers) [
    | some j ↦ j ∷ []
    | none ↦ elim (lookup k m.stereotypes) [ some ks ↦ ks | none ↦ [] ]
  ]
]

unfoldable pub expand_all : SupvisorsMapper → List Name → List Name
unfolding expand
expand_all m [] = []
expand_all m (k ∷ ks) = expand m k ++ expand_all m ks

-- list(OrderedDict.fromkeys(identifiers))
unfoldable pub from_keys : List Name → List Name
from_keys [] = []
from_keys (k ∷ ks) = k ∷ keep (λ j. not (k == j)) (from_keys ks)

unfoldable pub filter : SupvisorsMapper → List Name → List Name
unfolding expand_all from_keys
filter m identifiers = from_keys (expand_all m identifiers)

unfoldable pub core_identifiers : SupvisorsMapper → List Name
unfolding filter
core_identifiers m = filter m m.core_identifiers
