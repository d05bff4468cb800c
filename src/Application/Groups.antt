-- ===== src/Application/Groups.antt =====
-- supvisors/application.py: HomogeneousGroup, which spreads the processes of one program over
-- instances. The rules that it changes are those of the processes of the application.
-- `none` is an exception: KeyError, ValueError or IndexError.
use supvisors.Prelude.{
  ℕ, ◌+◌, Bool, true, false, not, ◌&&◌, List, [], ◌∷◌, ◌++◌, Option, none, some, Name, ◌==◌, leb,
  keep, all, if◌then◌else◌,
}
use supvisors.Prelude.Dict.{Dict, lookup, insert, keys}
use supvisors.Prelude.NameSet.{contains}
use supvisors.Prelude.Sorting.{sorted}
use supvisors.Process.{ProcessStatus}
use supvisors.Process.Rules.{wildcard, is_set}
use supvisors.Mapper.{SupvisorsMapper}
use supvisors.Mapper.Filter.{filter}
use supvisors.Application.{HomogeneousGroup}

-- HomogeneousGroup(program_name, supvisors)
unfoldable pub new : Name → HomogeneousGroup
new program_name = record {
  program_name = program_name;
  at_identifiers = none;
  hash_identifiers = none;
  processes = [];
}

-- The truth value of an optional list.
abbrev pub is_ruled : Option (List Name) → Bool
is_ruled none = false
is_ruled (some ks) = is_set ks

abbrev listed : Option (List Name) → List Name
listed none = []
listed (some ks) = ks

abbrev pub latest_rule : List Name → Option (List Name) → Option (List Name)
latest_rule ks rule = if is_set ks then some ks else rule

unfoldable pub add_process : ProcessStatus → HomogeneousGroup → HomogeneousGroup
add_process p g =
    let at_rule = latest_rule p.rules.at_identifiers g.at_identifiers in
    let hash_rule = latest_rule p.rules.hash_identifiers g.hash_identifiers in
    record g {
      processes = g.processes ++ (p.process_name ∷ []);
      at_identifiers = at_rule;
      hash_identifiers = if is_ruled at_rule && is_ruled hash_rule then none else hash_rule;
    }

-- list.remove
unfoldable pub remove_first : Name → List Name → Option (List Name)
remove_first k [] = none
remove_first k (j ∷ ks) =
    let rest = remove_first k ks in
    if j == k then some ks else elim rest [ none ↦ none | some ks' ↦ some (j ∷ ks') ]

unfoldable pub remove_process : Name → HomogeneousGroup → Option HomogeneousGroup
unfolding remove_first
remove_process k g = elim (remove_first k g.processes) [
  | none ↦ none
  | some ks ↦ some (record g { processes = ks })
]

-- The processes that the names stand for.
unfoldable pub members : List Name → Dict ProcessStatus → List ProcessStatus
unfolding lookup
members [] d = []
members (k ∷ ks) d = elim (lookup k d) [ none ↦ members ks d | some p ↦ p ∷ members ks d ]

-- sorted(self.processes, key=lambda x: x.process_index)
unfoldable pub process_list : HomogeneousGroup → Dict ProcessStatus → List ProcessStatus
unfolding members sorted
process_list g d = sorted (λ p q. leb p.process_index q.process_index) (members g.processes d)

unfoldable pub references : SupvisorsMapper → List Name → List Name
unfolding contains keys filter
references m ks = if contains wildcard ks then keys m.instances else filter m ks

-- `[process.rules.identifiers[0] for process in process_list if process.rules.identifiers]`
unfoldable pub assigned_identifiers : List ProcessStatus → List Name
assigned_identifiers [] = []
assigned_identifiers (p ∷ ps) = elim p.rules.identifiers [
  | [] ↦ assigned_identifiers ps
  | k ∷ _ ↦ k ∷ assigned_identifiers ps
]

unfoldable pub assign_at : ProcessStatus → Name → Dict ProcessStatus → Dict ProcessStatus
unfolding insert
assign_at p k d =
    insert p.process_name
      (record p { rules = record p.rules { at_identifiers = []; identifiers = k ∷ [] } }) d

unfoldable pub assign_hash : ProcessStatus → Name → Dict ProcessStatus → Dict ProcessStatus
unfolding insert
assign_hash p k d =
    insert p.process_name
      (record p { rules = record p.rules { hash_identifiers = []; identifiers = k ∷ [] } }) d

-- The loop over zip(unassigned_processes, unassigned_identifiers).
unfoldable pub assign_pairs :
    List ProcessStatus → List Name → Dict ProcessStatus → Dict ProcessStatus
unfolding assign_at
assign_pairs [] ks d = d
assign_pairs (p ∷ ps) [] d = d
assign_pairs (p ∷ ps) (k ∷ ks) d = assign_pairs ps ks (assign_at p k d)

unfoldable pub assign_at_identifiers :
    SupvisorsMapper → HomogeneousGroup → Dict ProcessStatus → Dict ProcessStatus
unfolding process_list references assigned_identifiers assign_pairs contains
assign_at_identifiers m g d =
    let ps = process_list g d in
    let assigned = assigned_identifiers ps in
    assign_pairs (keep (λ p. is_set p.rules.at_identifiers) ps)
      (keep (λ k. not (contains k assigned)) (references m (listed g.at_identifiers))) d

abbrev pub occurrences : Name → List Name → ℕ
occurrences k [] = 0
occurrences k (j ∷ ks) = (if j == k then 1 else 0) + occurrences k ks

-- process_count
unfoldable pub process_count : List Name → List Name → List (ℕ × Name)
process_count [] assigned = []
process_count (k ∷ ks) assigned = (occurrences k assigned, k) ∷ process_count ks assigned

-- Whether no count of the list is below.
abbrev pub is_least : ℕ → List (ℕ × Name) → Bool
is_least n [] = true
is_least n ((c, k) ∷ counts) = leb n c && is_least n counts

-- The identifier of the first of the least counts, and the counts after it is incremented.
unfoldable pub take_least : List (ℕ × Name) → Option (Name × List (ℕ × Name))
take_least [] = none
take_least ((c, k) ∷ counts) =
    let rest = take_least counts in
    if is_least c counts
    then some (k, (c + 1, k) ∷ counts)
    else elim rest [ none ↦ none | some (j, counts') ↦ some (j, (c, k) ∷ counts') ]

unfoldable pub assign_least :
    List ProcessStatus → List (ℕ × Name) → Dict ProcessStatus → Option (Dict ProcessStatus)
unfolding take_least assign_hash
assign_least [] counts d = some d
assign_least (p ∷ ps) counts d = elim (take_least counts) [
  | none ↦ none
  | some (k, counts') ↦ assign_least ps counts' (assign_hash p k d)
]

abbrev is_any : List ProcessStatus → Bool
is_any [] = false
is_any (_ ∷ _) = true

unfoldable pub assign_hash_identifiers :
    SupvisorsMapper → HomogeneousGroup → Dict ProcessStatus → Option (Dict ProcessStatus)
unfolding process_list references assigned_identifiers process_count assign_least contains
assign_hash_identifiers m g d =
    let ps = process_list g d in
    let unassigned = keep (λ p. is_set p.rules.hash_identifiers) ps in
    let assigned = assigned_identifiers ps in
    let refs = references m (listed g.hash_identifiers) in
    if is_any unassigned
    then if all (λ k. contains k refs) assigned
      then assign_least unassigned (process_count refs assigned) d
      else none
    else some d

-- resolve_rules()
unfoldable pub resolve_rules :
    SupvisorsMapper → HomogeneousGroup → Dict ProcessStatus → Option (Dict ProcessStatus)
unfolding assign_at_identifiers assign_hash_identifiers
resolve_rules m g d =
    let d' = if is_ruled g.at_identifiers then assign_at_identifiers m g d else d in
    if is_ruled g.hash_identifiers then assign_hash_identifiers m g d' else some d'
