-- ===== src/Process/Rules.antt =====
-- supvisors/process.py: ProcessRules and its checks after the rules file has been read.
use supvisors.Prelude.{
  ℕ, Bool, true, false, ◌&&◌, not, List, [], ◌∷◌, Option, none, some, Name, nat_beq, arith,
  if◌then◌else◌, ◌≡◌,
}
use supvisors.Prelude.Integers.{ℤ, pos, is_negative}
use supvisors.Types.Strategies.{
  StartingFailureStrategies, RunningFailureStrategies, stop_application, restart_application,
}

pub record ProcessRules : Type 0 where
  pub identifiers : List Name
  pub at_identifiers : List Name
  pub hash_identifiers : List Name
  pub start_sequence : ℕ
  pub stop_sequence : ℤ
  pub required : Bool
  pub wait_exit : Bool
  pub expected_load : ℕ
  pub starting_failure_strategy : StartingFailureStrategies
  pub running_failure_strategy : RunningFailureStrategies

-- WILDCARD of supvisors/utils.py
abbrev pub wildcard : Name
wildcard = "*"

-- The truth value of a Python list.
abbrev pub is_set : List Name → Bool
is_set [] = false
is_set (_ ∷ _) = true

unfoldable pub check_at_identifiers : Bool → ProcessRules → ProcessRules
check_at_identifiers is_pattern r =
    if is_set r.at_identifiers && not is_pattern
    then record r { identifiers = wildcard ∷ []; at_identifiers = [] }
    else r

unfoldable pub check_hash_identifiers : Bool → ProcessRules → ProcessRules
check_hash_identifiers is_pattern r =
    if is_set r.hash_identifiers && not is_pattern
    then record r { identifiers = wildcard ∷ []; hash_identifiers = [] }
    else r

unfoldable pub check_sign_identifiers : ProcessRules → ProcessRules
check_sign_identifiers r =
    if is_set r.at_identifiers && is_set r.hash_identifiers
    then record r { hash_identifiers = [] }
    else r

unfoldable pub check_start_sequence : ProcessRules → ProcessRules
check_start_sequence r =
    if r.required && nat_beq r.start_sequence 0 then record r { required = false } else r

unfoldable pub check_stop_sequence : ProcessRules → ProcessRules
check_stop_sequence r =
    if is_negative r.stop_sequence then record r { stop_sequence = pos r.start_sequence } else r

-- `running_failure_strategy in [STOP_APPLICATION, RESTART_APPLICATION]`
abbrev pub drives_application : RunningFailureStrategies → Bool
drives_application stop_application = true
drives_application restart_application = true
drives_application _ = false

-- The second component is the autorestart setting of the program in the local Supervisor, `none`
-- where it is unknown there (KeyError).
unfoldable pub check_autorestart : ProcessRules → Option Bool → Option Bool
check_autorestart r none = none
check_autorestart r (some autorestart) =
    if drives_application r.running_failure_strategy && autorestart
    then some false
    else some autorestart

unfoldable pub check_dependencies : Bool → ProcessRules → Option Bool → ProcessRules × Option Bool
unfolding check_at_identifiers check_hash_identifiers check_sign_identifiers check_start_sequence
    check_stop_sequence check_autorestart
check_dependencies is_pattern r autorestart =
    let r' = check_stop_sequence (
      check_start_sequence (
        check_sign_identifiers
          (check_hash_identifiers is_pattern (check_at_identifiers is_pattern r)))) in
    (r', check_autorestart r' autorestart)

abbrev starts_itself : Option Bool → Bool
starts_itself none = false
starts_itself (some autorestart) = autorestart

-- What the rest of the program relies on once the rules are checked.
pub record IsChecked (is_pattern : Bool) (r : ProcessRules) (autorestart : Option Bool)
    : Type 0 where
  pub at_in_pattern : (is_set r.at_identifiers && not is_pattern) ≡ false
  pub hash_in_pattern : (is_set r.hash_identifiers && not is_pattern) ≡ false
  pub one_sign : (is_set r.at_identifiers && is_set r.hash_identifiers) ≡ false
  pub required_started : (r.required && nat_beq r.start_sequence 0) ≡ false
  pub stop_set : is_negative r.stop_sequence ≡ false
  pub no_autorestart :
      (drives_application r.running_failure_strategy && starts_itself autorestart) ≡ false

-- After check_dependencies, @ and # rules stand only in a pattern and never together, a required
-- process has a start sequence, the stop sequence is set, and the autorestart of Supervisor is
-- off for a process whose failure strategy concerns the application.
pub check_dependencies-IsChecked :
    (is_pattern : Bool) (r : ProcessRules) (autorestart : Option Bool)
    → let (r', autorestart') = check_dependencies is_pattern r autorestart in
      IsChecked is_pattern r' autorestart'
unfolding check_dependencies
check_dependencies-IsChecked is_pattern r autorestart = record {
  at_in_pattern = ground arith;
  hash_in_pattern = ground arith;
  one_sign = ground arith;
  required_started = ground arith;
  stop_set = ground arith;
  no_autorestart = ground arith;
}
