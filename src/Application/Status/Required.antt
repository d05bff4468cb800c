-- ===== src/Application/Status/Required.antt =====
-- The state of an application and its status by the required processes, as supvisors/application.py
-- finds them in one loop each, against what is said of them process by process.
use supvisors.Prelude.{
  ℕ, ◌≡◌, refl, inl, inr, Bool, false, not, ◌&&◌, ◌||◌, List, [], ◌∷◌, ◌++◌, Option, none, some,
  Name, ◌==◌, Bool-cases, arith, if◌then◌else◌, nat_beq, In, here, there,
}
use supvisors.Prelude.Dict.{Dict, keys}
use supvisors.Prelude.NameSet.{contains, contains-append, In-contains}
use supvisors.Types.ProcessStates.{ProcessState, has_state}
use supvisors.Types.ProcessStates as P
use supvisors.Types.Applications.{ApplicationStates, starting, stopping}
use supvisors.Types.Applications as A
use supvisors.Process.{ProcessStatus, Supervisor}
use supvisors.Process.Commands.{displayed_state}
use supvisors.Application.{ApplicationStatus}
use supvisors.Application.Sequences.{append_at, fill, update_sequences}
use supvisors.Application.Status.{
  note_state, note_states, update_state, failed, note_failure, note_failures,
  update_status_required, sequenced_names, update,
}

-- Whether some process of the application has the property.
unfoldable pub some_process : (ProcessStatus → Bool) → Dict ProcessStatus → Bool
some_process f [] = false
some_process f ((k, p) ∷ d) = f p || some_process f d

-- A process displayed as starting, waiting for a new attempt included.
abbrev pub shows_starting : ProcessStatus → Bool
shows_starting p =
    P.same_state (displayed_state p) P.starting || P.same_state (displayed_state p) P.backoff

abbrev pub shows : ProcessState → ProcessStatus → Bool
shows s p = P.same_state (displayed_state p) s

-- The first of these that applies: stopping, starting, running.
unfoldable pub state_by_processes : Dict ProcessStatus → ApplicationStates
unfolding some_process
state_by_processes d =
    if some_process (shows P.stopping) d
    then stopping
    else if some_process shows_starting d
    then starting
    else if some_process (shows P.running) d
    then A.running
    else A.stopped

unfoldable pub is_major : Dict ProcessStatus → Bool
unfolding some_process state_by_processes
is_major d =
    some_process (λ p. p.rules.required && failed p) d
    || (not (A.same_state (state_by_processes d) A.stopped)
        && some_process (λ p. p.rules.required && shows P.stopped p) d)

note_state-flags :
    (s : ProcessState) (starts runs stops : Bool)
    → note_state s (starts, runs, stops) ≡ (
      starts || P.same_state s P.starting || P.same_state s P.backoff,
      runs || P.same_state s P.running,
      stops || P.same_state s P.stopping,
    )
unfolding note_state
note_state-flags s starts runs stops = ground arith

note_states-flags :
    (d : Dict ProcessStatus) (starts runs stops : Bool)
    → note_states d (starts, runs, stops) ≡ (
      starts || some_process shows_starting d,
      runs || some_process (shows P.running) d,
      stops || some_process (shows P.stopping) d,
    )
unfolding note_states some_process
note_states-flags [] starts runs stops = ground arith
note_states-flags ((k, p) ∷ d) starts runs stops =
    rw (note_state-flags, note_states-flags d) (ground arith)

note_failure-flags :
    (k : Name) (p : ProcessStatus) (sequenced : List Name) (b major minor possible : Bool)
    → contains k sequenced ≡ b
    → note_failure sequenced k p (major, minor, possible) ≡ (
      major || (p.rules.required && failed p),
      minor || (b && not p.rules.required && failed p),
      possible || (p.rules.required && shows P.stopped p),
    )
unfolding note_failure failed displayed_state
note_failure-flags k p sequenced b major minor possible h = ground (arith, h)

note_failures-flags :
    (d : Dict ProcessStatus) (sequenced : List Name) (b major minor possible : Bool)
    → ((k : Name) → In k (keys d) → contains k sequenced ≡ b)
    → note_failures d sequenced (major, minor, possible) ≡ (
      major || some_process (λ p. p.rules.required && failed p) d,
      minor || (b && some_process (λ p. not p.rules.required && failed p) d),
      possible || some_process (λ p. p.rules.required && shows P.stopped p) d,
    )
unfolding note_failures some_process keys
note_failures-flags [] sequenced b major minor possible h = ground arith
note_failures-flags ((k, p) ∷ d) sequenced b major minor possible h =
    rw
      (
        note_failure-flags k p sequenced b major minor possible (h k (here refl)),
        note_failures-flags d sequenced b (major || (p.rules.required && failed p))
            (minor || (b && not p.rules.required && failed p))
            (possible || (p.rules.required && shows P.stopped p)) (λ j i. h j (there i)),
      )
      (ground arith)

-- Every process of a managed application is in its start sequence, be its number 0.
contains-append_at :
    (seq : List (ℕ × List Name)) (m : ℕ) (j k : Name)
    → contains k (sequenced_names (append_at nat_beq m j seq))
      ≡ (contains k (sequenced_names seq) || (j == k))
unfolding append_at sequenced_names contains
contains-append_at [] m j k = ground arith
contains-append_at ((i, ks) ∷ seq) m j k = ground (
  arith,
  contains-append k ks (sequenced_names seq),
  contains-append k ks (sequenced_names (append_at nat_beq m j seq)),
  contains-append k (ks ++ (j ∷ [])) (sequenced_names seq),
  contains-append k ks (j ∷ []),
  contains-append_at seq m j k,
)

contains-fill :
    (d : Dict ProcessStatus) (seq : List (ℕ × List Name)) (k : Name)
    → contains k (sequenced_names (fill nat_beq d (λ p. p.rules.start_sequence) seq))
      ≡ (contains k (sequenced_names seq) || contains k (keys d))
unfolding fill keys contains
contains-fill [] seq k = ground arith
contains-fill ((j, p) ∷ d) seq k = ground (
  arith,
  contains-fill d (append_at nat_beq p.rules.start_sequence j seq) k,
  contains-append_at seq p.rules.start_sequence j k,
)

sequenced_managed :
    (a : ApplicationStatus) (k : Name)
    → In k (keys a.processes)
    → contains k (sequenced_names (update_sequences a).start_sequence) ≡ a.rules.managed
unfolding update_sequences sequenced_names contains
sequenced_managed a k i = elim (Bool-cases a.rules.managed) [
  | inl e ↦ rw e (ground (arith, contains-fill a.processes [] k, In-contains i))
  | inr e ↦ rw e refl
]

update_state-by_processes :
    (a : ApplicationStatus) → update_state a ≡ state_by_processes a.processes
unfolding update_state state_by_processes
update_state-by_processes a = rw (note_states-flags a.processes false false false) (ground arith)

-- For an application without a status formula, update after update_sequences sets the state to
-- stopping, starting or running by the first that some process shows, else stopped. The failure
-- is major if a required process has failed, or is stopped while the application is not; it is
-- minor if it is not major, the application is managed and some other process has failed, whether
-- or not it is started in sequence.
pub update-required :
    (sup : Supervisor) (compile : Name → Option (Name → Bool)) (a : ApplicationStatus)
    → a.rules.status_tree ≡ none
    → update sup compile (update_sequences a)
      ≡ some (record (update_sequences a) {
        state = state_by_processes a.processes;
        major_failure = is_major a.processes;
        minor_failure =
            not (is_major a.processes)
            && a.rules.managed
            && some_process (λ p. not p.rules.required && failed p) a.processes;
      })
unfolding update update_status_required update_sequences is_major
update-required sup compile a h =
    let s = update_state-by_processes (update_sequences a) in
    let f =
      note_failures-flags a.processes (sequenced_names (update_sequences a).start_sequence)
        a.rules.managed false false false (sequenced_managed a) in
    rw h (ground (arith, s, f))
