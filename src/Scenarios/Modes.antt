-- ===== src/Scenarios/Modes.antt =====
-- supvisors/statemodes.py on two running instances and a stopped one.
use supvisors.Prelude.{
  true, false, not, ◌&&◌, [], ◌∷◌, Option, none, some, Name, ◌≡◌, ◌≢◌, ◌⊎◌, inl, refl, In, here,
  there, if◌then◌else◌, ◌==◌, arith, all, ap, sym, ◌∙◌, subst, name_iff,
}
use supvisors.Prelude.Dict.{lookup, values}
use supvisors.Prelude.NameSet.{contains, contains-In}
use supvisors.Types.InstanceStates.{failed, is_running}
use supvisors.StateModes.{StateModes, SupvisorsStateModes}
use supvisors.StateModes.Views.{
  is_stable_state, runs, get_stable_running_identifiers, running_identifiers,
  contains-get_stable_running_identifiers,
}
use supvisors.StateModes.Updates.{update_instance_state, deferred_publish_status}
use supvisors.StateModes.Publication.{
  IsShared, apply, instance_state, last_sent, apply-IsShared, deferred_publish_status_shares,
  update_instance_state_effect,
}
use supvisors.StateModes.Stability.{
  running_modes, evaluate_stability, is_stable, evaluate_stability-agrees,
  evaluate_stability-stable,
}
use supvisors.StateModes.Master.{
  nick_identifier, get_master_identifiers, all_candidates, candidates, select_master,
}
use supvisors.StateModes.Election.{
  declare, select_master-source, select_master-core, select_master-lowest,
}
use supvisors.StateModes.Election.Lowest.{IsKeyed, AtMost}
use supvisors.StateModes.Election.Agreement.{SameView, select_master_agree}
use supvisors.Scenarios.{modes, seen, both_running}

abbrev view_of_a : SupvisorsStateModes
view_of_a = modes "a" "b" ""

abbrev view_of_b : SupvisorsStateModes
view_of_b = modes "b" "a" ""

abbrev agreed : SupvisorsStateModes
agreed = modes "a" "b" "b"

contains-get_stable_running_identifiers_example :
    contains "b" (get_stable_running_identifiers (seen "a" both_running ""))
    ≡ (all is_stable_state (values both_running) && runs "b" both_running)
unfolding lookup
contains-get_stable_running_identifiers_example =
    contains-get_stable_running_identifiers (seen "a" both_running "") "b"
      (refl, (refl, (refl, tt)))

abbrev or_view : Option SupvisorsStateModes → SupvisorsStateModes
or_view none = view_of_a
or_view (some m) = m

abbrev b_failed : SupvisorsStateModes
b_failed = or_view (update_instance_state "b" failed agreed)

b_fails : update_instance_state "b" failed agreed ≡ some b_failed
unfolding update_instance_state
b_fails = refl

b_named : ◌≢◌ {A = Name} "b" ""
b_named e = ground (arith, (name_iff "b" "").1 e)

update_instance_state_effect_example :
    (lookup "b" b_failed.local_state_modes.instance_states ≡ some failed)
    × (b_failed.local_state_modes.master_identifier ≡ (
        if not (is_running failed) && "b" == agreed.local_state_modes.master_identifier
        then ""
        else agreed.local_state_modes.master_identifier))
update_instance_state_effect_example =
    update_instance_state_effect "b" failed agreed b_named b_fails

agreed-IsShared : IsShared agreed
agreed-IsShared = inl refl

applied : apply (instance_state "b" failed) agreed ≡ some b_failed
unfolding apply
applied = b_fails

apply-IsShared_example : IsShared b_failed
apply-IsShared_example =
    apply-IsShared (instance_state "b" failed) agreed b_named agreed-IsShared applied

deferred_publish_status_shares_example :
    let m = deferred_publish_status agreed in
    (last_sent m.published ≡ some agreed.local_state_modes)
    × (m.local_state_modes ≡ agreed.local_state_modes)
    × (m.update_mark ≡ false)
deferred_publish_status_shares_example = deferred_publish_status_shares agreed agreed-IsShared

abbrev seen_b : StateModes
seen_b = seen "b" both_running "b"

abbrev seen_a : StateModes
seen_a = seen "a" both_running "b"

two_run : running_modes agreed ≡ seen_a ∷ seen_b ∷ []
unfolding running_modes lookup
two_run = refl

b_runs : In seen_b (running_modes agreed)
unfolding running_modes lookup
b_runs = there (here refl)

stable : is_stable (evaluate_stability agreed) ≡ true
unfolding is_stable evaluate_stability lookup
stable = refl

evaluate_stability-agrees_example :
    contains "a" (evaluate_stability agreed).stable_identifiers
    ≡ contains "a" (get_stable_running_identifiers seen_b)
evaluate_stability-agrees_example = evaluate_stability-agrees agreed stable seen_b b_runs "a"

a_seen_by_b : contains "a" (get_stable_running_identifiers seen_b) ≡ true
unfolding contains get_stable_running_identifiers
a_seen_by_b = refl

one_view :
    (other : StateModes)
    → In other (running_modes agreed)
    → (k : Name)
    → contains k (get_stable_running_identifiers other)
      ≡ contains k (get_stable_running_identifiers seen_b)
unfolding get_stable_running_identifiers
one_view other i k = among (subst (In other) two_run i)
  where
    among :
        In other (seen_a ∷ seen_b ∷ [])
        → contains k (get_stable_running_identifiers other)
          ≡ contains k (get_stable_running_identifiers seen_b)
    among (here e) = ap (λ sm. contains k (get_stable_running_identifiers sm)) (sym e)
    among (there (here e)) = ap (λ sm. contains k (get_stable_running_identifiers sm)) (sym e)
    among (there (there i)) = elim i [ ]

evaluate_stability-stable_example : is_stable (evaluate_stability agreed) ≡ true
evaluate_stability-stable_example =
    evaluate_stability-stable agreed seen_b "a" b_runs a_seen_by_b one_view

abbrev elected : SupvisorsStateModes
elected = or_view (select_master view_of_a)

abbrev elected_of_b : SupvisorsStateModes
elected_of_b = or_view (select_master view_of_b)

selection : select_master view_of_a ≡ some elected
unfolding select_master
selection = refl

selection_of_b : select_master view_of_b ≡ some elected_of_b
unfolding select_master
selection_of_b = refl

select_master-core_example : In elected.local_state_modes.master_identifier ("b" ∷ [])
select_master-core_example =
    select_master-core view_of_a "b" selection (here refl) (unfold all_candidates in refl)

select_master-source_example :
    ((sm : StateModes) × In sm (running_modes view_of_a)
      × (sm.master_identifier ≡ elected.local_state_modes.master_identifier)
      × (elected.local_state_modes.master_identifier ≢ ""))
    ⊎ ((contains elected.local_state_modes.master_identifier
            (running_identifiers view_of_a.local_state_modes)
          ≡ true)
        × (declare "" (running_modes view_of_a) ≡ true))
select_master-source_example = select_master-source view_of_a selection

b_alone : candidates view_of_a ≡ "b" ∷ []
unfolding candidates
b_alone = refl

b_candidate : In "b" (candidates view_of_a)
b_candidate = subst (In "b") (sym b_alone) (here refl)

select_master-lowest_example :
    (n : Name) × (nick_identifier view_of_a.mapper elected.local_state_modes.master_identifier
      ≡ some n)
    × AtMost (nick_identifier view_of_a.mapper) n "b"
select_master-lowest_example = select_master-lowest view_of_a "b" selection b_candidate

b_nick : nick_identifier view_of_a.mapper "b" ≡ some "beta"
unfolding nick_identifier
b_nick = refl

only_b : (k : Name) → In k (candidates view_of_a) → "b" ≡ k
only_b k i = alone (subst (In k) b_alone i)
  where
    alone : In k ("b" ∷ []) → "b" ≡ k
    alone (here e) = e
    alone (there i) = elim i [ ]

nicks_known : (k : Name) → In k (candidates view_of_a) → nick_identifier view_of_a.mapper k ≢ none
nicks_known k i =
    subst (λ j. nick_identifier view_of_a.mapper j ≢ none) (only_b k i)
      (λ e. ground (arith, b_nick, e))

one_election : SameView view_of_a view_of_b
unfolding nick_identifier contains get_master_identifiers running_identifiers
one_election = record {
  nicks = λ k. refl;
  cores = λ k. refl;
  declared = λ k. refl;
  running = λ k. refl;
}

candidates-IsKeyed : IsKeyed (nick_identifier view_of_a.mapper) (candidates view_of_a)
candidates-IsKeyed = record {
  keyed = λ k c. nicks_known k (contains-In k (candidates view_of_a) c);
  distinct = λ j k cj ck e.
      sym (only_b j (contains-In j (candidates view_of_a) cj))
      ∙ only_b k (contains-In k (candidates view_of_a) ck);
}

select_master_agree_example :
    elected.local_state_modes.master_identifier ≡ elected_of_b.local_state_modes.master_identifier
select_master_agree_example =
    select_master_agree view_of_a view_of_b one_election candidates-IsKeyed selection selection_of_b
