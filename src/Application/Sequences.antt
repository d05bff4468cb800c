-- ===== src/Application/Sequences.antt =====
-- supvisors/application.py: the start and stop sequences of ApplicationStatus.
pub mod Exact
pub mod Load
use supvisors.Prelude.{
  ℕ, ◌+◌, Bool, true, false, List, [], ◌∷◌, ◌++◌, Option, none, some, Name, ltb, nat_beq,
  if◌then◌else◌,
}
use supvisors.Prelude.Dict.{Dict, lookup}
use supvisors.Prelude.Integers.{ℤ, int_beq}
use supvisors.Process.{ProcessStatus}
use supvisors.Application.{ApplicationStatus}

module _ {K : Type 0} (eq : K → K → Bool) where
  -- sequence.setdefault(number, []).append(process)
  unfoldable pub append_at : K → Name → List (K × List Name) → List (K × List Name)
  append_at m k [] = (m, k ∷ []) ∷ []
  append_at m k ((n, ks) ∷ seq) =
      if eq n m then (n, ks ++ (k ∷ [])) ∷ seq else (n, ks) ∷ append_at m k seq

  -- The loop over self.processes.values().
  unfoldable pub fill :
      Dict ProcessStatus → (ProcessStatus → K) → List (K × List Name) → List (K × List Name)
  unfolding append_at
  fill [] number seq = seq
  fill ((k, p) ∷ d) number seq = fill d number (append_at (number p) k seq)

unfoldable pub update_sequences : ApplicationStatus → ApplicationStatus
unfolding fill
update_sequences a = record a {
  start_sequence =
      if a.rules.managed then fill nat_beq a.processes (λ p. p.rules.start_sequence) [] else [];
  stop_sequence = fill int_beq a.processes (λ p. p.rules.stop_sequence) [];
}

unfoldable pub positive : List (ℕ × List Name) → List Name
positive [] = []
positive ((n, ks) ∷ seq) = if ltb 0 n then ks ++ positive seq else positive seq

unfoldable pub get_start_sequenced_processes : ApplicationStatus → List Name
unfolding positive
get_start_sequenced_processes a = positive a.start_sequence

-- The expected load of the process that a name stands for.
unfoldable pub load_of : Dict ProcessStatus → Name → ℕ
load_of d k = elim (lookup k d) [ none ↦ 0 | some p ↦ p.rules.expected_load ]

abbrev pub total : (Name → ℕ) → List Name → ℕ
total load [] = 0
total load (k ∷ ks) = load k + total load ks

unfoldable pub get_start_sequence_expected_load : ApplicationStatus → ℕ
unfolding get_start_sequenced_processes load_of
get_start_sequence_expected_load a = total (load_of a.processes) (get_start_sequenced_processes a)
