-- ===== src/StateModes/Stability.antt =====
-- supvisors/statemodes.py: `evaluate_stability`, and what the running instances agree on.
use supvisors.Prelude.{
  Bool, true, false, ◌&&◌, List, [], ◌∷◌, Name, if◌then◌else◌, ◌≡◌, all, arith, refl, In, here,
  there, all-In, all-of_In, sym, ◌∙◌, ltb, length, nat_beq, ap,
}
use supvisors.Prelude.Dict.{Dict, lookup}
use supvisors.Prelude.NameSet.{NameSet, contains, same, same_iff, issubset}
use supvisors.StateModes.{StateModes, SupvisorsStateModes, instance_state_modes}
use supvisors.StateModes.Views.{get_stable_running_identifiers, runs}

-- The comprehensions over the instances that the local one sees as running. The local view has an
-- entry for every instance (a missing one would be a KeyError).
unfoldable pub seen_running : SupvisorsStateModes → Dict StateModes → List StateModes
unfolding lookup
seen_running m [] = []
seen_running m ((k, sm) ∷ d) =
    if runs k m.local_state_modes.instance_states then sm ∷ seen_running m d else seen_running m d

unfoldable pub running_modes : SupvisorsStateModes → List StateModes
unfolding seen_running
running_modes m = seen_running m (instance_state_modes m)

-- The first of the sets if all are equal to it.
unfoldable pub common_set : List StateModes → NameSet
unfolding same get_stable_running_identifiers
common_set [] = []
common_set (sm ∷ sms) =
    let first = get_stable_running_identifiers sm in
    if same first first && all (λ other. same (get_stable_running_identifiers other) first) sms
    then first
    else []

unfoldable pub evaluate_stability : SupvisorsStateModes → SupvisorsStateModes
unfolding running_modes common_set
evaluate_stability m = record m { stable_identifiers = common_set (running_modes m) }

-- is_stable()
unfoldable pub is_stable : SupvisorsStateModes → Bool
is_stable m = ltb 0 (length m.stable_identifiers)

-- initial_running() and core_instances_running(), over the identifiers that the mapper names
unfoldable pub all_stable : List Name → SupvisorsStateModes → Bool
unfolding issubset
all_stable [] m = false
all_stable (k ∷ ks) m = issubset (k ∷ ks) m.stable_identifiers

unfoldable pub initial_running : SupvisorsStateModes → Bool
unfolding all_stable
initial_running m = all_stable m.mapper.initial_identifiers m

unfoldable pub core_instances_running : SupvisorsStateModes → Bool
unfolding all_stable
core_instances_running m = all_stable m.mapper.core_identifiers m

-- all_running()
unfoldable pub all_running : SupvisorsStateModes → Bool
all_running m = nat_beq (length m.stable_identifiers) (length (instance_state_modes m))

common_set-agrees :
    (sms : List StateModes)
    → ltb 0 (length (common_set sms)) ≡ true
    → (sm : StateModes) → In sm sms
    → (k : Name) → contains k (common_set sms) ≡ contains k (get_stable_running_identifiers sm)
unfolding common_set
common_set-agrees [] h sm i k = elim i [ ]
common_set-agrees (first ∷ sms) h sm i k =
    let agreed : (same (get_stable_running_identifiers first) (get_stable_running_identifiers first)
          && all
              (λ other.
                same (get_stable_running_identifiers other) (get_stable_running_identifiers first))
              sms)
        ≡ true =
      ground arith in
    rw agreed (member i (ground (arith, agreed)))
  where
    first_set : NameSet
    first_set = get_stable_running_identifiers first

    member :
        {sm : StateModes}
        → In sm (first ∷ sms)
        → all (λ other. same (get_stable_running_identifiers other) first_set) sms ≡ true
        → contains k first_set ≡ contains k (get_stable_running_identifiers sm)
    member (here e) a = ap (λ other. contains k (get_stable_running_identifiers other)) e
    member {sm} (there i) a = sym (
        (same_iff (get_stable_running_identifiers sm) first_set).0
          (all-In (λ other. same (get_stable_running_identifiers other) first_set) a i) k)

-- In a stable context every instance seen as running has a stable view with exactly the stable
-- identifiers as running.
pub evaluate_stability-agrees :
    (m : SupvisorsStateModes)
    → is_stable (evaluate_stability m) ≡ true
    → (sm : StateModes) → In sm (running_modes m)
    → (k : Name)
    → contains k (evaluate_stability m).stable_identifiers
      ≡ contains k (get_stable_running_identifiers sm)
unfolding evaluate_stability is_stable
evaluate_stability-agrees m h = common_set-agrees (running_modes m) h

not_empty : (k : Name) (s : NameSet) → contains k s ≡ true → ltb 0 (length s) ≡ true
unfolding contains
not_empty k [] h = absurd (ground arith)
not_empty k (j ∷ s) h = ground arith

common_set-full :
    (sms : List StateModes) (s : NameSet) (j : Name) {sm : StateModes}
    → In sm sms
    → ((other : StateModes)
        → In other sms
        → (k : Name) → contains k (get_stable_running_identifiers other) ≡ contains k s)
    → contains j s ≡ true
    → ltb 0 (length (common_set sms)) ≡ true
unfolding common_set
common_set-full [] s j i agree c = elim i [ ]
common_set-full (first ∷ sms) s j i agree c =
    let first_set = get_stable_running_identifiers first in
    let others : all (λ other. same (get_stable_running_identifiers other) first_set) sms ≡ true =
      all-of_In (λ other. same (get_stable_running_identifiers other) first_set) sms
        (λ other o.
          (same_iff (get_stable_running_identifiers other) first_set).1
            (λ k. agree other (there o) k ∙ sym (agree first (here refl) k))) in
    let itself : same first_set first_set ≡ true = (same_iff first_set first_set).1 (λ k. refl) in
    rw (itself, others) (not_empty j first_set (agree first (here refl) j ∙ c))

-- Instances that agree on some running ones make the context stable.
pub evaluate_stability-stable :
    (m : SupvisorsStateModes) (sm : StateModes) (j : Name)
    → In sm (running_modes m)
    → contains j (get_stable_running_identifiers sm) ≡ true
    → ((other : StateModes)
        → In other (running_modes m)
        → (k : Name)
        → contains k (get_stable_running_identifiers other)
          ≡ contains k (get_stable_running_identifiers sm))
    → is_stable (evaluate_stability m) ≡ true
unfolding evaluate_stability is_stable
evaluate_stability-stable m sm j i c agree =
    common_set-full (running_modes m) (get_stable_running_identifiers sm) j i agree c
