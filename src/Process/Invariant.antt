-- ===== src/Process/Invariant.antt =====
-- What holds of a ProcessStatus between two events.
pub mod Settle
pub mod Methods
pub mod Upkeep
pub mod Removal
use supvisors.Prelude.{
  ℕ, Bool, true, false, ◌&&◌, ◌||◌, not, List, [], ◌∷◌, ◌++◌, Option, none, some, Name, length, ltb,
  any, if◌then◌else◌, ◌≡◌, refl, arith, Bool-cases, Option-cases, ap, sym, ◌∙◌, inl, inr, ◌⊎◌, ◌==◌,
  name_iff,
}
use supvisors.Prelude.Dict.{Dict, lookup, insert, values, lookup-insert}
use supvisors.Prelude.Dict.Values.{IsDict, insert-IsDict, any-values, values-any}
use supvisors.Prelude.NameSet.{NameSet, contains, add, discard, contains-add, contains-discard}
use supvisors.Types.ProcessStates.{
  ProcessState, stopping, unknown, has_state, same_state, is_running, is_stopping, is_stopped,
}
use supvisors.Process.{ProcessInfo, ProcessStatus, Supervisor, IsSupervisor}
use supvisors.Process.Status.{
  states_of, state_of, latest, running_state, update_status, update_running, stopped,
}
use supvisors.Process.Synthesis.{is_live, running_state-running, running_state-stopping, In-latest}

abbrev pub is_some {ℓ} : {A : Type ℓ} → Option A → Bool
is_some none = false
is_some (some _) = true

-- A test of the state in which an instance last reported the process.
abbrev pub test : (ProcessState → Bool) → Option ProcessState → Bool
test f none = false
test f (some s) = f s

abbrev pub any_state : (ProcessState → Bool) → Dict ProcessInfo → Bool
any_state f d = any (λ info. f info.state) (values d)

-- The running identifiers against the entries: a named instance reported a running-like or STOPPING
-- process, and an instance that reported a running-like process is named.
pub record Tracks (running : NameSet) (d : Dict ProcessInfo) : Type 0 where
  pub distinct : IsDict d
  pub live : (k : Name) → contains k running ≡ true → test is_live (state_of k d) ≡ true
  pub complete : (k : Name) → test is_running (state_of k d) ≡ true → contains k running ≡ true

pub record IsConsistent (p : ProcessStatus) : Type 0 where
  pub tracks : Tracks p.running_identifiers p.info_map
  pub running_synthesis : is_running p.state ≡ any_state is_running p.info_map
  pub stopping_synthesis :
      is_stopping p.state
      ≡ not (any_state is_running p.info_map) && any_state is_stopping p.info_map

pub any_state-of_key :
    (f : ProcessState → Bool) (k : Name) (d : Dict ProcessInfo)
    → test f (state_of k d) ≡ true
    → any_state f d ≡ true
any_state-of_key f k d h = elim (Option-cases (lookup k d)) [
  | inl e ↦ absurd (ground (arith, h, e))
  | inr (info, e) ↦ any-values (λ i. f i.state) k d e (ground (arith, h, e))
]

pub key_of_any_state :
    (f : ProcessState → Bool) (d : Dict ProcessInfo)
    → IsDict d
    → any_state f d ≡ true
    → (k : Name) × (test f (state_of k d) ≡ true)
key_of_any_state f d h t =
    let (k, info, e, q) = values-any (λ i. f i.state) d h t in (k, ground (arith, e, q))

pub bool_eq : (a b : Bool) → (a ≡ true → b ≡ true) → (b ≡ true → a ≡ true) → a ≡ b
bool_eq true b f g = sym (f refl)
bool_eq false true f g = g refl
bool_eq false false f g = refl

-- A search through the entries depends on the states by key only.
pub any_state-ext :
    (f : ProcessState → Bool) (d d' : Dict ProcessInfo)
    → IsDict d
    → IsDict d'
    → ((k : Name) → test f (state_of k d) ≡ test f (state_of k d'))
    → any_state f d ≡ any_state f d'
any_state-ext f d d' h h' same =
    bool_eq _ _ (one_way d d' h same) (one_way d' d h' (λ k. sym (same k)))
  where
    one_way :
        (d d' : Dict ProcessInfo)
        → IsDict d
        → ((k : Name) → test f (state_of k d) ≡ test f (state_of k d'))
        → any_state f d ≡ true
        → any_state f d' ≡ true
    one_way d d' h same e =
        let (k, q) = key_of_any_state f d h e in any_state-of_key f k d' (sym (same k) ∙ q)

pub state_of-insert :
    (k j : Name) (info : ProcessInfo) (d : Dict ProcessInfo)
    → state_of j (insert k info d) ≡ (if k == j then some info.state else state_of j d)
state_of-insert k j info d = ground (arith, lookup-insert k j info d)

module _ (sup : Supervisor) (law : IsSupervisor sup) where
  -- The first part of `update_status` keeps the running identifiers in line with the entries.
  pub update_running-Tracks :
      (p p' : ProcessStatus) (k : Name) (info : ProcessInfo)
      → IsConsistent p
      → p'.info_map ≡ insert k info p.info_map
      → p'.running_identifiers ≡ p.running_identifiers
      → p'.state ≡ p.state
      → Tracks (update_running sup k info.state p').running_identifiers p'.info_map
  unfolding update_running stopped contains
  update_running-Tracks p p' k info h same_map same_running same_st = record {
    distinct = rw same_map (insert-IsDict k info p.info_map h.tracks.distinct);
    live = λ j. rw same_map (
        ground (
          arith,
          h.tracks.live j,
          contains-discard k j p.running_identifiers,
          contains-add k j p.running_identifiers,
          state_of-insert k j info p.info_map,
          law.running_iff info.state,
          law.stopped_iff info.state,
          law.stopped_iff p.state,
          same_running,
          same_st,
        ));
    complete = λ j. rw same_map (
        ground (
          arith,
          h.tracks.complete j,
          contains-discard k j p.running_identifiers,
          contains-add k j p.running_identifiers,
          state_of-insert k j info p.info_map,
          law.running_iff info.state,
          law.stopped_iff info.state,
          law.stopped_iff p.state,
          same_running,
          same_st,
          h.running_synthesis,
          any_state-of_key is_running j p.info_map,
        ));
  }
