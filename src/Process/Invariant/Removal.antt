-- ===== src/Process/Invariant/Removal.antt =====
-- supvisors/process.py: remove_identifier takes out one instance, and tells whether it was the last.
use supvisors.Prelude.{
  Bool, true, false, [], ◌∷◌, none, some, Name, ◌≡◌, ◌≢◌, ◌↔◌, refl, arith, Option-cases, inl, inr,
  name_iff, name_self,
}
use supvisors.Prelude.Dict.{Dict, lookup, delete, lookup-delete}
use supvisors.Process.{ProcessInfo, ProcessStatus}
use supvisors.Process.Status.{state_of}
use supvisors.Process.Synthesis.{is_live}
use supvisors.Process.Events.{remove_identifier, is_empty}
use supvisors.Process.Invariant.{IsConsistent, test}
use supvisors.Process.Invariant.Upkeep.{remove_identifier-IsConsistent}

is_empty_iff : (d : Dict ProcessInfo) → (is_empty d ≡ true) ↔ ((j : Name) → lookup j d ≡ none)
unfolding lookup
is_empty_iff [] = (λ e j. refl, λ h. refl)
is_empty_iff ((k, info) ∷ d) = (λ e j. absurd (ground arith), λ h. ground (arith, h k, name_self k))

-- On a consistent process that an instance knows and that does not live on it, remove_identifier
-- raises nothing, leaves the process consistent and takes the instance out of its information,
-- with the entries of the other instances as they were. It returns True exactly if no instance
-- is left.
pub remove_identifier-Removes :
    (k : Name) (p : ProcessStatus)
    → IsConsistent p
    → lookup k p.info_map ≢ none
    → test is_live (state_of k p.info_map) ≡ false
    → (q : ProcessStatus) × (last : Bool) × (remove_identifier k p ≡ some (q, last))
      × IsConsistent q
      × (lookup k q.info_map ≡ none)
      × ((j : Name) → j ≢ k → lookup j q.info_map ≡ lookup j p.info_map)
      × ((last ≡ true) ↔ ((j : Name) → lookup j q.info_map ≡ none))
unfolding remove_identifier
remove_identifier-Removes k p h known dead = elim (Option-cases (lookup k p.info_map)) [
  | inl e ↦ absurd (known e)
  | inr (info, e) ↦
      let q = record p { info_map = delete k p.info_map } in
      let removed : remove_identifier k p ≡ some (q, is_empty q.info_map) = ground (arith, e) in
      (
        q,
        is_empty q.info_map,
        removed,
        remove_identifier-IsConsistent k p h dead removed,
        ground (arith, lookup-delete k k p.info_map, name_self k),
        λ j other. ground (arith, lookup-delete k j p.info_map, name_iff k j, other),
        is_empty_iff q.info_map,
      )
]
