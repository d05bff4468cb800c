-- ===== src/StateModes/Master.antt =====
-- supvisors/statemodes.py: the Master that the running instances declare, and the selection of one.
use supvisors.Prelude.{
  Bool, ◌&&◌, not, List, [], ◌∷◌, Option, none, some, Name, if◌then◌else◌, keep, length, ltb,
}
use supvisors.Prelude.Dict.{lookup}
use supvisors.Prelude.NameSet.{NameSet, contains, discard, of_list}
use supvisors.Prelude.Order.{name_le}
use supvisors.StateModes.{StateModes, SupvisorsStateModes, Mapper}
use supvisors.StateModes.Views.{running_identifiers}
use supvisors.StateModes.Updates.{set_master_identifier}
use supvisors.StateModes.Stability.{running_modes}

abbrev pub masters_of : List StateModes → List Name
masters_of [] = []
masters_of (sm ∷ sms) = sm.master_identifier ∷ masters_of sms

-- get_master_identifiers()
unfoldable pub get_master_identifiers : SupvisorsStateModes → NameSet
unfolding of_list running_modes
get_master_identifiers m = of_list (masters_of (running_modes m))

-- check_master(); the argument `election` changes the logs only
unfoldable pub check_master : SupvisorsStateModes → Bool
unfolding get_master_identifiers contains
check_master m =
    let masters = get_master_identifiers m in
    not (contains "" masters) && not (ltb 1 (length masters))

-- `self.mapper.instances[x].nick_identifier`, `none` for an unknown identifier (KeyError)
unfoldable pub nick_identifier : Mapper → Name → Option Name
unfolding lookup
nick_identifier mapper k = lookup k mapper.instances

-- The loop of `min(candidates, key=…)`, with the best candidate so far and its key.
unfoldable pub lowest_from : (Name → Option Name) → Name → Name → List Name → Option Name
unfolding name_le
lowest_from nick best best_nick [] = some best
lowest_from nick best best_nick (k ∷ ks) = elim (nick k) [
  | none ↦ none
  | some n ↦
      lowest_from nick (if name_le best_nick n then best else k)
        (if name_le best_nick n then best_nick else n) ks
]

-- `min(candidates, key=…)`; `none` is the ValueError of no candidate, or the KeyError of a key
unfoldable pub lowest : (Name → Option Name) → List Name → Option Name
unfolding lowest_from
lowest nick [] = none
lowest nick (k ∷ ks) = elim (nick k) [ none ↦ none | some n ↦ lowest_from nick k n ks ]

-- `a or b` on lists and sets
abbrev pub or_else : List Name → List Name → List Name
or_else [] ys = ys
or_else (x ∷ xs) ys = x ∷ xs

-- The candidates: the declared Masters, or else the running instances; of these the core instances,
-- or else all.
unfoldable pub all_candidates : SupvisorsStateModes → NameSet
unfolding get_master_identifiers discard running_identifiers
all_candidates m =
    or_else (discard "" (get_master_identifiers m)) (running_identifiers m.local_state_modes)

unfoldable pub candidates : SupvisorsStateModes → List Name
unfolding all_candidates contains
candidates m =
    or_else (keep (λ k. contains k (all_candidates m)) m.mapper.core_identifiers) (all_candidates m)

-- select_master(): `none` is an exception
unfoldable pub select_master : SupvisorsStateModes → Option SupvisorsStateModes
unfolding candidates lowest nick_identifier set_master_identifier
select_master m = elim (lowest (nick_identifier m.mapper) (candidates m)) [
  | none ↦ none
  | some k ↦ some (set_master_identifier k m)
]

-- accept_master(): `pick` is the member that `next(iter(masters))` gives, in no particular order
unfoldable pub accept_master : (NameSet → Option Name) → SupvisorsStateModes → SupvisorsStateModes
unfolding get_master_identifiers discard set_master_identifier
accept_master pick m = elim (pick (discard "" (get_master_identifiers m))) [
  | none ↦ m
  | some k ↦ set_master_identifier k m
]
