-- ===== src/Application.antt =====
-- supvisors/application.py: the data of ApplicationStatus. The process objects, which the source
-- shares with the homogeneous groups, the sequences and the Supvisors instances, stand in `processes`
-- only; the others hold their names.
pub mod Formula
pub mod Rules
pub mod Groups
pub mod Sequences
pub mod Status
pub mod Candidates
pub mod Upkeep
use supvisors.Prelude.{ℕ, Bool, true, false, List, [], Option, none, some, Name}
use supvisors.Prelude.Dict.{Dict}
use supvisors.Prelude.Integers.{ℤ}
use supvisors.Types.Applications.{ApplicationStates}
use supvisors.Process.{ProcessStatus}
use Formula.{Expr}
use Rules.{ApplicationRules}

pub record HomogeneousGroup : Type 0 where
  pub program_name : Name
  pub at_identifiers : Option (List Name)
  pub hash_identifiers : Option (List Name)
  pub processes : List Name

-- A sequence lists the process names by their order in it.
pub record ApplicationStatus : Type 0 where
  pub application_name : Name
  pub state : ApplicationStates
  pub major_failure : Bool
  pub minor_failure : Bool
  pub rules : ApplicationRules
  pub processes : Dict ProcessStatus
  pub process_groups : Dict HomogeneousGroup
  pub start_sequence : List (ℕ × List Name)
  pub stop_sequence : List (ℤ × List Name)

-- ApplicationStatus(application_name, rules, supvisors)
unfoldable pub new : Name → ApplicationRules → ApplicationStatus
new application_name rules = record {
  application_name = application_name;
  state = ApplicationStates.stopped;
  major_failure = false;
  minor_failure = false;
  rules = rules;
  processes = [];
  process_groups = [];
  start_sequence = [];
  stop_sequence = [];
}
