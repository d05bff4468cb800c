-- ===== src/Strategy/Bounds/Room.antt =====
-- supvisors/strategy.py: get_supvisors_instance from end to end.
use supvisors.Prelude.{
  ℕ, ◌+◌, ◌≡◌, refl, inl, inr, subst, ap, Bool, true, false, ◌&&◌, List, [], ◌∷◌, Option, none,
  some, Name, ◌==◌, leb, all, name_iff, Bool-cases, In-of_keep, all-of_In, arith, if◌then◌else◌,
}
use supvisors.Prelude.Dict.{Dict, lookup}
use supvisors.Prelude.NameSet.{contains, contains-In, In-contains}
use supvisors.Types.Strategies.{
  StartingStrategies, config, less_loaded, most_loaded, local, less_loaded_node, most_loaded_node,
}
use supvisors.Process.{Supervisor}
use supvisors.Mapper.{SupvisorsMapper, machine_of}
use supvisors.Instances.Status.{InstanceStatus}
use supvisors.Context.{Context}
use supvisors.Strategy.Loads.{
  LoadDetails, LoadingValidity, load_at, get_load, is_loading_valid, get_loading_from,
  get_loading_and_validity,
}
use supvisors.Strategy.Starting.{
  running_identifiers, candidate_identifiers, load_details, apply_strategy, is_away, choose,
  from_candidates, get_supvisors_instance,
}
use supvisors.Strategy.Choice.{IsChoice}
use supvisors.Strategy.Best.{is_reported, choose-IsChoice}
use supvisors.Strategy.Bounds.{
  is_some, is_some-eq, IsMapped, load_details-total, get_loading-total, lookup-get_loading,
  get_loading-IsDict,
}

module _ (sup : Supervisor) (m : SupvisorsMapper) (c : Context) where
  -- The report on the candidates only.
  abbrev pub report : List Name → ℕ → LoadDetails → Name → Option LoadingValidity
  report ks n details k = if contains k ks then is_loading_valid sup m c k n details else none

  -- What get_supvisors_instance returns: a choice among the candidates, whatever the details.
  pub record Settled (strategy : StartingStrategies) (ks : List Name) (n : ℕ)
      (details : LoadDetails) (result : Option (Option Name)) : Type 0 where
    pub chosen : Option Name
    pub returned : result ≡ some chosen
    pub is_choice : IsChoice strategy m.local_identifier (report ks n details) chosen

  away-IsChoice :
      (strategy : StartingStrategies) (h : Option Name) (ks : List Name) (n : ℕ)
      (details : LoadDetails)
      → is_away strategy ks h ≡ true
      → IsChoice strategy h (report ks n details) none
  away-IsChoice local none ks n details e j = refl
  away-IsChoice local (some k) ks n details e j = elim (Bool-cases (k == j)) [
    | inl q ↦ ground (arith, ap (λ i. contains i ks) ((name_iff k j).0 q), e)
    | inr q ↦ rw q refl
  ]
  away-IsChoice config h ks n details e j = absurd (ground arith)
  away-IsChoice less_loaded h ks n details e j = absurd (ground arith)
  away-IsChoice most_loaded h ks n details e j = absurd (ground arith)
  away-IsChoice less_loaded_node h ks n details e j = absurd (ground arith)
  away-IsChoice most_loaded_node h ks n details e j = absurd (ground arith)

  here_reported :
      (strategy : StartingStrategies) (h : Option Name) (ks : List Name) (n : ℕ)
      (details : LoadDetails) (d : Dict LoadingValidity)
      → is_away strategy ks h ≡ false
      → ((k : Name) → contains k ks ≡ true → is_some (lookup k d) ≡ true)
      → is_reported strategy h d ≡ true
  here_reported local none ks n details d e f = absurd (ground arith)
  here_reported local (some k) ks n details d e f = ground (arith, f k (ground arith))
  here_reported config h ks n details d e f = refl
  here_reported less_loaded h ks n details d e f = refl
  here_reported most_loaded h ks n details d e f = refl
  here_reported less_loaded_node h ks n details d e f = refl
  here_reported most_loaded_node h ks n details d e f = refl

  looked_up :
      (ks : List Name) (n : ℕ) (details : LoadDetails) (d : Dict LoadingValidity)
      → get_loading_from sup m c ks n details [] ≡ some d
      → (k : Name) → lookup k d ≡ report ks n details k
  unfolding lookup
  looked_up ks n details d g k = lookup-get_loading sup m c ks n details [] d g k

  all-contains :
      (f : Name → Bool) (ks : List Name) (k : Name)
      → all f ks ≡ true
      → contains k ks ≡ true
      → f k ≡ true
  unfolding contains
  all-contains f [] k h i = absurd (ground arith)
  all-contains f (j ∷ ks) k h i = ground (arith, name_iff j k, ap f, all-contains f ks k)

  apply_strategy-Settled :
      (strategy : StartingStrategies) (ks : List Name) (n : ℕ) (details : LoadDetails)
      → all (λ k. is_some (is_loading_valid sup m c k n details)) ks ≡ true
      → Settled strategy ks n details (apply_strategy sup m c strategy ks n details)
  unfolding apply_strategy get_loading_and_validity
  apply_strategy-Settled strategy ks n details t =
      elim (Bool-cases (is_away strategy ks m.local_identifier)) [
        | inl e ↦ record {
          chosen = none;
          returned = rw e refl;
          is_choice = away-IsChoice strategy m.local_identifier ks n details e;
        }
        | inr e ↦
            let (d, g) =
              is_some-eq (get_loading_from sup m c ks n details [])
                (get_loading-total sup m c ks n details [] t) in
            rw (e, g)
              (reported_choice d g
                (here_reported strategy m.local_identifier ks n details d e (reported d g)))
      ]
    where
      reported :
          (d : Dict LoadingValidity)
          → get_loading_from sup m c ks n details [] ≡ some d
          → (k : Name) → contains k ks ≡ true
          → is_some (lookup k d) ≡ true
      reported d g k i =
          let h = all-contains (λ j. is_some (is_loading_valid sup m c j n details)) ks k t i in
          rw (looked_up ks n details d g k, i) h

      reported_choice :
          (d : Dict LoadingValidity)
          → get_loading_from sup m c ks n details [] ≡ some d
          → is_reported strategy m.local_identifier d ≡ true
          → Settled strategy ks n details (choose strategy m.local_identifier d)
      reported_choice d g r =
          let (chosen, q, b) =
            choose-IsChoice strategy m.local_identifier d
              (get_loading-IsDict sup m c ks n details [] d g tt) r in
          record {
            chosen = chosen;
            returned = q;
            is_choice =
                subst (λ f. IsChoice strategy m.local_identifier f chosen)
                  (λ i k. looked_up ks n details d g k i) b;
          }

  -- The bounds of a decision, by the loads themselves.
  abbrev pub fits : ℕ → LoadDetails → Option Name → Bool
  fits n details none = true
  fits n (requests, asked, loads) (some k) = elim (machine_of m k) [
    | none ↦ false
    | some machine ↦ leb (load_at machine loads + load_at machine asked + n) 100
  ]

  abbrev pub is_runner : List Name → Option Name → Bool
  is_runner identifiers none = true
  is_runner identifiers (some k) =
      contains k identifiers && contains k (running_identifiers c.instances)

  pub record Decided (strategy : StartingStrategies) (identifiers : List Name) (n : ℕ)
      (requests : Dict ℕ) (result : Option (Option Name)) : Type 0 where
    pub details : LoadDetails
    pub built : load_details sup m c requests ≡ some details
    pub settled : Settled strategy (candidate_identifiers sup m c identifiers) n details result
    pub room : fits n details settled.chosen ≡ true
    pub runner : is_runner identifiers settled.chosen ≡ true

  pub running-known :
      (k : Name) (d : Dict InstanceStatus)
      → contains k (running_identifiers d) ≡ true
      → is_some (lookup k d) ≡ true
  unfolding running_identifiers lookup contains
  running-known k [] h = h
  running-known k ((j, s) ∷ d) h = ground (arith, running-known k d)

  loads_known :
      (k : Name) (n : ℕ) (details : LoadDetails)
      → is_some (lookup k c.instances) ≡ true
      → is_some (machine_of m k) ≡ true
      → is_some (is_loading_valid sup m c k n details) ≡ true
  unfolding is_loading_valid get_load
  loads_known k n (requests, asked, loads) h g = ground (arith, h, g)

  valid_fits :
      (k : Name) (n : ℕ) (details : LoadDetails) (node load : ℕ)
      → is_loading_valid sup m c k n details ≡ some (true, node, load)
      → fits n details (some k) ≡ true
  unfolding is_loading_valid get_load
  valid_fits k n (requests, asked, loads) node load h = ground (arith, h)

  choice_fits :
      (strategy : StartingStrategies) (ks : List Name) (n : ℕ) (details : LoadDetails)
      (r : Option Name)
      → IsChoice strategy m.local_identifier (report ks n details) r
      → fits n details r ≡ true
  choice_fits strategy ks n details none h = refl
  choice_fits strategy ks n details (some k) h = elim (Bool-cases (contains k ks)) [
    | inl e ↦ valid_fits k n details h.node h.load (rw e at h.reported)
    | inr e ↦ absurd (ground (arith, (rw e at h.reported)))
  ]

  choice_runner :
      (strategy : StartingStrategies) (identifiers : List Name) (n : ℕ) (details : LoadDetails)
      (r : Option Name)
      → IsChoice strategy m.local_identifier
          (report (candidate_identifiers sup m c identifiers) n details)
          r
      → is_runner identifiers r ≡ true
  unfolding candidate_identifiers
  choice_runner strategy identifiers n details none h = refl
  choice_runner strategy identifiers n details (some k) h =
      elim (Bool-cases (contains k (candidate_identifiers sup m c identifiers))) [
        | inl e ↦
            let (i, f) =
              In-of_keep (λ j. contains j (running_identifiers c.instances)) identifiers
                (contains-In k (candidate_identifiers sup m c identifiers) e) in
            ground (arith, In-contains i, f)
        | inr e ↦ absurd (ground (arith, (rw e at h.reported)))
      ]

  candidates_known :
      (identifiers : List Name) (n : ℕ) (details : LoadDetails)
      → all (λ k. is_some (machine_of m k)) (running_identifiers c.instances) ≡ true
      → all
          (λ k. is_some (is_loading_valid sup m c k n details))
          (candidate_identifiers sup m c identifiers)
        ≡ true
  unfolding candidate_identifiers
  candidates_known identifiers n details h =
      all-of_In (λ k. is_some (is_loading_valid sup m c k n details)) _
        (λ k i.
          let (j, f) =
            In-of_keep (λ j. contains j (running_identifiers c.instances)) identifiers i in
          loads_known k n details (running-known k c.instances f)
            (all-contains (λ j. is_some (machine_of m j)) (running_identifiers c.instances) k h f))

  settle :
      (strategy : StartingStrategies) (ks : List Name) (n : ℕ) (requests : Dict ℕ)
      (details : LoadDetails)
      → load_details sup m c requests ≡ some details
      → Settled strategy ks n details (apply_strategy sup m c strategy ks n details)
      → Settled strategy ks n details (from_candidates sup m c strategy ks n requests)
  unfolding from_candidates contains
  settle strategy [] n requests details e s = record {
    chosen = none;
    returned = refl;
    is_choice = λ j. ground arith;
  }
  settle strategy (k ∷ ks) n requests details e s = rw (e, from_candidates) s

  -- Where the requests are for instances on known nodes, the nodes have known instances and every
  -- running instance has a machine, get_supvisors_instance raises nothing. An instance that it
  -- returns is one of the identifiers asked for and runs, the load of its node with the requests
  -- in progress and the expected load is at most 100, and no candidate with room has loads that
  -- the strategy prefers; without an instance, no candidate that the strategy considers has room.
  pub get_supvisors_instance-Decided :
      (strategy : StartingStrategies) (identifiers : List Name) (n : ℕ) (requests : Dict ℕ)
      → IsMapped m c requests
      → all (λ k. is_some (machine_of m k)) (running_identifiers c.instances) ≡ true
      → Decided strategy identifiers n requests
          (get_supvisors_instance sup m c strategy identifiers n requests)
  unfolding get_supvisors_instance
  get_supvisors_instance-Decided strategy identifiers n requests h g =
      let (details, e) =
        is_some-eq (load_details sup m c requests) (load_details-total sup m c requests h) in
      let s = settle strategy (candidate_identifiers sup m c identifiers) n requests details e (
        apply_strategy-Settled strategy (candidate_identifiers sup m c identifiers) n details
          (candidates_known identifiers n details g)) in
      record {
        details = details;
        built = e;
        settled = s;
        room = choice_fits strategy _ n details s.chosen s.is_choice;
        runner = choice_runner strategy identifiers n details s.chosen s.is_choice;
      }
