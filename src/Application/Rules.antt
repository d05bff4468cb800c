-- ===== src/Application/Rules.antt =====
-- supvisors/application.py: ApplicationRules. The formula is kept as its tree.
use supvisors.Prelude.{
  ℕ, zero, suc, ◌%◌, Bool, List, [], ◌∷◌, Option, none, some, Name, length, if◌then◌else◌,
}
use supvisors.Prelude.NameSet.{contains}
use supvisors.Prelude.Integers.{ℤ, pos, is_negative}
use supvisors.Types.Strategies.{
  DistributionRules, StartingStrategies, StartingFailureStrategies, RunningFailureStrategies,
}
use supvisors.Process.Rules.{wildcard, is_set}
use supvisors.Application.Formula.{Expr}

pub record ApplicationRules : Type 0 where
  pub managed : Bool
  pub distribution : DistributionRules
  pub identifiers : List Name
  pub hash_identifiers : List Name
  pub start_sequence : ℕ
  pub stop_sequence : ℤ
  pub starting_strategy : StartingStrategies
  pub starting_failure_strategy : StartingFailureStrategies
  pub running_failure_strategy : RunningFailureStrategies
  pub status_tree : Option Expr

unfoldable pub check_stop_sequence : ApplicationRules → ApplicationRules
check_stop_sequence r =
    if is_negative r.stop_sequence then record r { stop_sequence = pos r.start_sequence } else r

abbrev pub item {ℓ} : {A : Type ℓ} → ℕ → List A → Option A
item n [] = none
item zero (x ∷ xs) = some x
item (suc n) (x ∷ xs) = item n xs

-- `application_number % len(filtered_identifiers)`, with its ZeroDivisionError
abbrev pub roll : ℕ → List Name → Option Name
roll number [] = none
roll number (k ∷ ks) = item (number % length (k ∷ ks)) (k ∷ ks)

-- `match` gives the number at the end of the application's name, as the regular expression finds
-- it; `instances` are the identifiers that the mapper knows, and `filter` is its method.
module _ (match : Name → Option ℕ) (instances : List Name) (filter : List Name → List Name) where
  unfoldable pub check_hash_identifiers : Name → ApplicationRules → Option ApplicationRules
  unfolding contains
  check_hash_identifiers application_name r = elim (match application_name) [
    | none ↦ some (record r { start_sequence = 0 })
    | some zero ↦ some (record r { start_sequence = 0 })
    | some (suc number) ↦
        let references =
          if contains wildcard r.hash_identifiers then instances else r.hash_identifiers in
        elim (roll number (filter references)) [
          | none ↦ none
          | some k ↦ some (record r { identifiers = k ∷ [] })
        ]
  ]

  unfoldable pub check_dependencies : Name → ApplicationRules → Option ApplicationRules
  unfolding check_stop_sequence check_hash_identifiers
  check_dependencies application_name r =
      let r' = check_stop_sequence r in
      if is_set r'.hash_identifiers then check_hash_identifiers application_name r' else some r'
