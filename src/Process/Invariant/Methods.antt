-- ===== src/Process/Invariant/Methods.antt =====
-- Every method of ProcessStatus succeeds on a consistent process and leaves it consistent.
use supvisors.Prelude.{
  ℕ, Bool, true, false, ◌&&◌, ◌||◌, not, [], ◌∷◌, none, some, Name, if◌then◌else◌, ◌≡◌, refl, arith,
  Bool-cases, Option-cases, ap, ◌∙◌, inl, inr, ◌==◌, name_self, ◌≢◌,
}
use supvisors.Prelude.Dict.{lookup, insert, values}
use supvisors.Prelude.NameSet.{NameSet, contains}
use supvisors.Types.ProcessStates.{is_running, fatal}
use supvisors.Process.{ProcessInfo, ProcessEvent, ProcessStatus, Supervisor, IsSupervisor, new}
use supvisors.Process.Rules.{ProcessRules}
use supvisors.Process.Status.{state_of, update_status}
use supvisors.Process.Synthesis.{is_live}
use supvisors.Process.Events.{
  add_info, store_added, store_updated, update_info, updated_info, invalidate_identifier,
  lost_event, is_empty,
}
use supvisors.Process.Invariant.{
  IsConsistent, any_state, any_state-of_key, key_of_any_state, state_of-insert,
}
use supvisors.Process.Invariant.Settle.{update_status-IsConsistent}

is_empty-contains : (k : Name) (s : NameSet) → is_empty s ≡ true → contains k s ≡ false
unfolding contains
is_empty-contains k [] h = refl
is_empty-contains k (j ∷ s) h = absurd (ground arith)

contains-first : (s : NameSet) → is_empty s ≡ false → (k : Name) × (contains k s ≡ true)
unfolding contains
contains-first [] h = absurd (ground arith)
contains-first (k ∷ s) h = (k, ground (arith, name_self k))

-- A new process is consistent.
pub new-IsConsistent :
    (application_name process_name namespec : Name) (rules : ProcessRules)
    → IsConsistent (new application_name process_name namespec rules)
unfolding new contains
new-IsConsistent a p n r = record {
  tracks = record {
    distinct = tt;
    live = λ k h. absurd (ground arith);
    complete = λ k h. absurd (unfold lookup in ground arith);
  };
  running_synthesis = unfold values in refl;
  stopping_synthesis = unfold values in refl;
}

module _ (sup : Supervisor) (law : IsSupervisor sup) where
  stored_added :
      (identifier : Name) (mtime : ℕ) (payload : ProcessInfo) (p : ProcessStatus)
      → let (info, p') = store_added sup identifier mtime payload p in
        (p'.info_map ≡ insert identifier info p.info_map)
        × (p'.running_identifiers ≡ p.running_identifiers)
        × (p'.state ≡ p.state)
        × (info.state ≡ payload.state)
  unfolding store_added
  stored_added identifier mtime payload p = ground arith

  -- Information of an instance raises nothing on a consistent process, leaves it consistent, and
  -- changes the reported state of that instance only.
  pub add_info-IsConsistent :
      (identifier : Name) (mtime : ℕ) (payload : ProcessInfo) (p : ProcessStatus)
      → IsConsistent p
      → (q : ProcessStatus) × (add_info sup identifier mtime payload p ≡ some q)
        × IsConsistent q
        × ((j : Name)
            → state_of j q.info_map
              ≡ (if identifier == j then some payload.state else state_of j p.info_map))
  unfolding add_info
  add_info-IsConsistent identifier mtime payload p h =
      let (info, p') = store_added sup identifier mtime payload p in
      let (m, r, s, t) = stored_added identifier mtime payload p in
      let (q, found, c, same) = update_status-IsConsistent sup law p p' identifier info h m r s in
      (
        q,
        found,
        c,
        λ j.
            ap (state_of j) same
            ∙ state_of-insert identifier j info p.info_map
            ∙ ap (λ x. if identifier == j then some x else state_of j p.info_map) t,
      )

  stored_updated :
      (identifier : Name) (mtime : ℕ) (event : ProcessEvent) (external : Bool) (old : ProcessInfo)
      (p : ProcessStatus)
      → let p' = store_updated sup identifier mtime event external old p in
        (p'.info_map ≡ insert identifier (updated_info sup mtime event external old) p.info_map)
        × (p'.running_identifiers ≡ p.running_identifiers)
        × (p'.state ≡ p.state)
        × ((updated_info sup mtime event external old).state ≡ event.state)
  unfolding store_updated
  stored_updated identifier mtime event external old p = ground arith

  -- An event of an instance that a consistent process knows raises nothing, leaves the process
  -- consistent, and changes the reported state of that instance only.
  pub update_info-IsConsistent :
      (identifier : Name) (mtime : ℕ) (event : ProcessEvent) (external : Bool) (p : ProcessStatus)
      → IsConsistent p
      → lookup identifier p.info_map ≢ none
      → (q : ProcessStatus) × (update_info sup identifier mtime event external p ≡ some q)
        × IsConsistent q
        × ((j : Name)
            → state_of j q.info_map
              ≡ (if identifier == j then some event.state else state_of j p.info_map))
  unfolding update_info
  update_info-IsConsistent identifier mtime event external p h known =
      elim (Option-cases (lookup identifier p.info_map)) [
        | inl absent ↦ absurd (known absent)
        | inr (old, present) ↦
            let info = updated_info sup mtime event external old in
            let p' = store_updated sup identifier mtime event external old p in
            let (m, r, s, t) = stored_updated identifier mtime event external old p in
            let (q, found, c, same) =
              update_status-IsConsistent sup law p p' identifier info h m r s in
            (
              q,
              ground (arith, present, found, ap (λ x. update_status sup identifier x p') t),
              c,
              λ j.
                  ap (state_of j) same
                  ∙ state_of-insert identifier j info p.info_map
                  ∙ ap (λ x. if identifier == j then some x else state_of j p.info_map) t,
            )
      ]

  -- Losing an instance raises nothing on a consistent process: the process is consistent
  -- afterwards and the instance is not a running one; the flag is set only if the process ran
  -- there and reports no running-like state from anywhere, and where it ran there and the flag is
  -- not set it is still live elsewhere.
  pub invalidate_identifier-IsConsistent :
      (identifier : Name) (mtime : ℕ) (p : ProcessStatus)
      → IsConsistent p
      → (q : ProcessStatus) × (failure : Bool) × (invalidate_identifier sup identifier mtime p
          ≡ some (q, failure))
        × IsConsistent q
        × (contains identifier q.running_identifiers ≡ false)
        × ((failure
              && (not (contains identifier p.running_identifiers)
                  || any_state is_running q.info_map))
            ≡ false)
        × ((contains identifier p.running_identifiers
              && (not failure && not (any_state is_live q.info_map)))
            ≡ false)
  unfolding invalidate_identifier
  invalidate_identifier-IsConsistent identifier mtime p h =
      elim (Bool-cases (contains identifier p.running_identifiers)) [
        | inr away ↦ (p, false, ground (arith, away), h, away, ground arith, ground (arith, away))
        | inl there ↦ elim (Option-cases (lookup identifier p.info_map)) [
          | inl absent ↦ absurd (ground (arith, h.tracks.live identifier there, absent))
          | inr (info, present) ↦
              let known : lookup identifier p.info_map ≢ none = λ e. ground (arith, e, present) in
              let (q, found, c, states) =
                update_info-IsConsistent identifier mtime (lost_event identifier info) false p h
                  known in
              (
                q,
                is_empty q.running_identifiers,
                ground (arith, there, present, found),
                c,
                gone q c (states identifier),
                ground (arith, there, none_running q c),
                ground (arith, some_live q c),
              )
        ]
      ]
    where
      gone :
          (q : ProcessStatus)
          → IsConsistent q
          → state_of identifier q.info_map
            ≡ (if identifier == identifier then some fatal else state_of identifier p.info_map)
          → contains identifier q.running_identifiers ≡ false
      gone q c e = ground (arith, c.tracks.live identifier, e, name_self identifier)

      none_running :
          (q : ProcessStatus)
          → IsConsistent q
          → is_empty q.running_identifiers ≡ true
          → any_state is_running q.info_map ≡ false
      none_running q c e = elim (Bool-cases (any_state is_running q.info_map)) [
        | inr r ↦ r
        | inl r ↦
            let (k, t) = key_of_any_state is_running q.info_map c.tracks.distinct r in
            absurd
              (ground (arith, c.tracks.complete k t, is_empty-contains k q.running_identifiers e))
      ]

      some_live :
          (q : ProcessStatus)
          → IsConsistent q
          → is_empty q.running_identifiers ≡ false
          → any_state is_live q.info_map ≡ true
      some_live q c e =
          let (k, i) = contains-first q.running_identifiers e in
          any_state-of_key is_live k q.info_map (c.tracks.live k i)
