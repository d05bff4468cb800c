-- ===== src/Fsm/Safety.antt =====
-- supvisors/statemachine.py: how DISTRIBUTION is entered, and what CONCILIATION refuses.
use supvisors.Prelude.{
  ℕ, Bool, true, false, ◌&&◌, ◌||◌, Option, none, some, Name, ◌≡◌, ◌≢◌, refl, arith, ap, subst, In,
  if◌then◌else◌,
}
use supvisors.Prelude.NameSet.{NameSet}
use supvisors.Types.FsmStates.{SupvisorsStates, election, distribution}
use supvisors.Process.{Supervisor}
use supvisors.StateModes.{StateModes, is_master, master_state}
use supvisors.StateModes.Stability.{evaluate_stability, is_stable, running_modes}
use supvisors.StateModes.Master.{check_master}
use supvisors.StateModes.Election.{declare, check_master-declare}
use supvisors.Fsm.{Machine, Outcome, returned, failed, chain, or_next, Options, Jobs, with_modes}
use supvisors.Fsm.Checks.{
  collect_lost, activating, activate_instances, check_instances, when_local_runs, check_on,
  check_failure_strategy, check_synchronized, check_consistence, base_next,
}
use supvisors.Fsm.Next.{elect, election_next, own_next, next, master_in}

abbrev machine_of : {J A : Type 0} → Outcome J A → Machine J
machine_of (returned a m) = m
machine_of (failed e m) = m

module _ {J : Type 0} where
  -- The suggestion of an outcome, if it has one.
  abbrev suggestion : Outcome J (Option SupvisorsStates) → Option SupvisorsStates
  suggestion (returned s m) = s
  suggestion (failed e m) = none

  record Never (s : SupvisorsStates) (r : Outcome J (Option SupvisorsStates)) : Type 0 where
    never : suggestion r ≢ some s

  or_next-cases :
      (r : Outcome J (Option SupvisorsStates)) (f : Machine J → Outcome J (Option SupvisorsStates))
      {s : SupvisorsStates} {m' : Machine J}
      → Never s r
      → or_next r f ≡ returned (some s) m'
      → (m : Machine J) × (f m ≡ returned (some s) m')
  unfolding or_next
  or_next-cases (returned none m) f avoids h = (m, h)
  or_next-cases (returned (some t) m) f avoids h = absurd (avoids.never (ap suggestion h))
  or_next-cases (failed e m) f avoids h = absurd (ground (arith, ap suggestion h))

  or_next-Never :
      (r : Outcome J (Option SupvisorsStates)) (f : Machine J → Outcome J (Option SupvisorsStates))
      {s : SupvisorsStates}
      → Never s r
      → ((m : Machine J) → Never s (f m))
      → Never s (or_next r f)
  unfolding or_next
  or_next-Never (returned none m) f h k = k m
  or_next-Never (returned (some t) m) f h k = h
  or_next-Never (failed e m) f h k = h

  chain-Never :
      {A : Type 0} (r : Outcome J A) (f : A → Machine J → Outcome J (Option SupvisorsStates))
      {s : SupvisorsStates}
      → ((a : A) (m : Machine J) → Never s (f a m))
      → Never s (chain r f)
  unfolding chain
  chain-Never (returned a m) f h = h a m
  chain-Never (failed e m) f h = record { never = λ q. ground (arith, q) }

  activating-Never :
      (s : SupvisorsStates) (mtime : ℕ) (m : Machine J)
      → Never s (activating (λ checked. none) mtime m)
  unfolding activating
  activating-Never s mtime m = record { never = λ q. ground (arith, q) }

  check_on-Never : (m : Machine J) → Never distribution (check_on m)
  unfolding check_on when_local_runs
  check_on-Never m = record { never = λ q. ground (arith, q) }

  check_failure_strategy-Never :
      (o : Options) (m : Machine J) → Never distribution (check_failure_strategy o m)
  unfolding check_failure_strategy
  check_failure_strategy-Never o m = record { never = λ q. ground (arith, q) }

  base_next-Never :
      (sup : Supervisor) (o : Options) (mtime : ℕ) (m : Machine J)
      → Never distribution (base_next sup o election mtime m)
  unfolding base_next check_instances activate_instances check_consistence check_synchronized
  base_next-Never sup o mtime m =
      or_next-Never _ _
        (chain-Never (collect_lost sup mtime m) _ (λ a m'. activating-Never distribution mtime m'))
        (λ m'.
          or_next-Never _ _
            (check_on-Never (with_modes (evaluate_stability m'.context.state_modes) m'))
            (λ m''. check_failure_strategy-Never o m''))

  elect-Never : (m : Machine J) → Never distribution (elect m)
  unfolding elect
  elect-Never m = record { never = λ q. ground (arith, q) }

  both_tests :
      (a b : Bool) (x : Outcome J (Option SupvisorsStates)) (m : Machine J) {m' : Machine J}
      → Never distribution x
      → (if a
          then (if b then returned (some distribution) m else x)
          else returned (some election) m)
        ≡ returned (some distribution) m'
      → (a ≡ true) × (b ≡ true) × (m ≡ m')
  both_tests true true x m {m'} avoids h = (refl, refl, ap (λ r. machine_of r) h)
  both_tests true false x m avoids h = absurd (avoids.never (ap suggestion h))
  both_tests false b x m avoids h = absurd (ground (arith, ap suggestion h))

  election_next-distribution :
      (m : Machine J) {m' : Machine J}
      → election_next m ≡ returned (some distribution) m'
      → let modes = m'.context.state_modes in
        (is_stable modes ≡ true)
        × (check_master modes ≡ true)
        × ((is_master modes || master_in distribution (master_state modes)) ≡ true)
  unfolding election_next
  election_next-distribution m {m'} h =
      let (stable, led, unmoved) =
        both_tests (is_stable m.context.state_modes) _ (elect m) m (elect-Never m) h in
      let (checked, follows) = and_true _ _ led in subst Led unmoved (stable, checked, follows)
    where
      Led : Machine J → Type 0
      Led m =
          let modes = m.context.state_modes in
          (is_stable modes ≡ true)
          × (check_master modes ≡ true)
          × ((is_master modes || master_in distribution (master_state modes)) ≡ true)

      and_true : (a b : Bool) → (a && b) ≡ true → (a ≡ true) × (b ≡ true)
      and_true a b h = ground arith

  -- ELECTION suggests DISTRIBUTION only in a stable context in which the instances seen as
  -- running declare one Master, and the local instance is Master of its own modes or its Master
  -- is in DISTRIBUTION.
  pub next-distribution :
      (sup : Supervisor) (pick : NameSet → Option Name) (o : Options) (jobs : Jobs J) (mtime : ℕ)
      (m : Machine J) {m' : Machine J} {sm : StateModes}
      → next jobs sup pick o election mtime m ≡ returned (some distribution) m'
      → In sm (running_modes m'.context.state_modes)
      → let modes = m'.context.state_modes in
        (is_stable modes ≡ true)
        × (declare sm.master_identifier (running_modes modes) ≡ true)
        × (sm.master_identifier ≢ "")
        × ((is_master modes || master_in distribution (master_state modes)) ≡ true)
  unfolding next own_next
  next-distribution sup pick o jobs mtime m {m'} {sm} h i =
      let (m1, e) =
        or_next-cases (base_next sup o election mtime m) _ (base_next-Never sup o mtime m) h in
      let (stable, checked, led) = election_next-distribution m1 e in
      let (named, agreed) = check_master-declare m'.context.state_modes checked i in
      (stable, agreed, named, led)
