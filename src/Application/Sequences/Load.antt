-- ===== src/Application/Sequences/Load.antt =====
-- What supvisors/application.py starts: the processes with a positive number, and their load.
use supvisors.Prelude.{
  ℕ, ◌+◌, ◌≡◌, refl, ap, inl, inr, Bool, ◌&&◌, ◌||◌, List, [], ◌∷◌, ◌++◌, some, Name, ◌==◌, ltb,
  nat_beq, nat_beq_iff, name_iff, name_self, Bool-cases, arith, if◌then◌else◌,
}
use supvisors.Prelude.Dict.{Dict, lookup}
use supvisors.Prelude.Dict.Values.{IsDict}
use supvisors.Prelude.NameSet.{contains, contains-append}
use supvisors.Process.{ProcessStatus}
use supvisors.Application.{ApplicationStatus}
use supvisors.Application.Sequences.{
  append_at, fill, update_sequences, positive, get_start_sequenced_processes, load_of, total,
  get_start_sequence_expected_load,
}
use supvisors.Application.Sequences.Exact.{has}

-- The loads of the processes to start.
unfoldable pub started_load : Dict ProcessStatus → ℕ
started_load [] = 0
started_load ((k, p) ∷ d) =
    (if ltb 0 p.rules.start_sequence then p.rules.expected_load else 0) + started_load d

total-append :
    (load : Name → ℕ) (xs ys : List Name) → total load (xs ++ ys) ≡ total load xs + total load ys
total-append load [] ys = ground arith
total-append load (x ∷ xs) ys = ground (arith, total-append load xs ys)

abbrev when : Bool → ℕ → ℕ
when b n = if b then n else 0

total-append_at :
    (seq : List (ℕ × List Name)) (load : Name → ℕ) (m : ℕ) (j : Name)
    → total load (positive (append_at nat_beq m j seq))
      ≡ total load (positive seq) + when (ltb 0 m) (load j)
unfolding append_at positive
total-append_at [] load m j = ground arith
total-append_at ((i, ks) ∷ seq) load m j = ground (
  arith,
  nat_beq_iff i m,
  total-append load ks (positive seq),
  total-append load ks (positive (append_at nat_beq m j seq)),
  total-append load (ks ++ (j ∷ [])) (positive seq),
  total-append load ks (j ∷ []),
  total-append_at seq load m j,
)

contains-append_at :
    (seq : List (ℕ × List Name)) (m : ℕ) (j k : Name)
    → contains k (positive (append_at nat_beq m j seq))
      ≡ (contains k (positive seq) || (ltb 0 m && (j == k)))
unfolding append_at positive contains
contains-append_at [] m j k = ground arith
contains-append_at ((i, ks) ∷ seq) m j k = ground (
  arith,
  nat_beq_iff i m,
  contains-append k ks (positive seq),
  contains-append k ks (positive (append_at nat_beq m j seq)),
  contains-append k (ks ++ (j ∷ [])) (positive seq),
  contains-append k ks (j ∷ []),
  contains-append_at seq m j k,
)

contains-fill :
    (d : Dict ProcessStatus) (seq : List (ℕ × List Name)) (k : Name)
    → IsDict d
    → contains k (positive (fill nat_beq d (λ p. p.rules.start_sequence) seq))
      ≡ (contains k (positive seq) || has (λ p. ltb 0 p.rules.start_sequence) (lookup k d))
unfolding fill lookup
contains-fill [] seq k h = ground arith
contains-fill ((j, p) ∷ d) seq k h = ground (
  arith,
  name_iff j k,
  h.0,
  ap (λ i. lookup i d),
  contains-fill d (append_at nat_beq p.rules.start_sequence j seq) k h.1,
  contains-append_at seq p.rules.start_sequence j k,
)

total-fill :
    (d : Dict ProcessStatus) (load : Name → ℕ) (seq : List (ℕ × List Name))
    → ((k : Name) (p : ProcessStatus) → lookup k d ≡ some p → load k ≡ p.rules.expected_load)
    → IsDict d
    → total load (positive (fill nat_beq d (λ p. p.rules.start_sequence) seq))
      ≡ total load (positive seq) + started_load d
unfolding fill lookup started_load
total-fill [] load seq g h = ground arith
total-fill ((j, p) ∷ d) load seq g h = ground (
  arith,
  g j p (rw name_self refl),
  total-fill d load (append_at nat_beq p.rules.start_sequence j seq) rest h.1,
  total-append_at seq load p.rules.start_sequence j,
)
  where
    rest : (k : Name) (q : ProcessStatus) → lookup k d ≡ some q → load k ≡ q.rules.expected_load
    rest k q e = g k q (ground (arith, name_iff j k, h.0, ap (λ i. lookup i d)))

module _ (d : Dict ProcessStatus) (h : IsDict d) where
  sequenced_has :
      (k : Name)
      → contains k (positive (fill nat_beq d (λ p. p.rules.start_sequence) []))
        ≡ has (λ p. ltb 0 p.rules.start_sequence) (lookup k d)
  unfolding positive contains
  sequenced_has k = ground (arith, contains-fill d [] k h)

  load_of-lookup :
      (k : Name) (p : ProcessStatus) → lookup k d ≡ some p → load_of d k ≡ p.rules.expected_load
  unfolding load_of
  load_of-lookup k p q = rw (q, load_of) refl

  sequenced_load :
      total (load_of d) (positive (fill nat_beq d (λ p. p.rules.start_sequence) []))
      ≡ started_load d
  unfolding positive
  sequenced_load = ground (arith, total-fill d (load_of d) [] load_of-lookup h)

-- With each process once in a managed application, the processes to start are those with a positive
-- number, and the load of the start sequence is the sum of their loads.
pub get_start_sequenced_lem :
    (a : ApplicationStatus)
    → IsDict a.processes
    → ((k : Name)
        → contains k (get_start_sequenced_processes (update_sequences a))
          ≡ (a.rules.managed && has (λ p. ltb 0 p.rules.start_sequence) (lookup k a.processes)))
      × (get_start_sequence_expected_load (update_sequences a)
          ≡ (if a.rules.managed then started_load a.processes else 0))
unfolding update_sequences get_start_sequenced_processes get_start_sequence_expected_load load_of
get_start_sequenced_lem a h = elim (Bool-cases a.rules.managed) [
  | inl e ↦ rw e (sequenced_has a.processes h, sequenced_load a.processes h)
  | inr e ↦ rw e (unfold positive contains in (λ k. refl, refl))
]
