-- ===== src/Process/Synthesis.antt =====
-- The synthetic state against the states that the instances reported.
use supvisors.Prelude.{
  Bool, true, false, ◌&&◌, ◌||◌, not, List, [], ◌∷◌, ◌++◌, some, ltb, any, In, here, there, All,
  any-of_In, In-of_any, subst, ◌≤◌, if◌then◌else◌, ◌≡◌, refl, arith, Bool-cases, sym, ◌∙◌, inl, inr,
}
use supvisors.Types.ProcessStates.{
  ProcessState, same_state-eq, stopping, unknown, has_state, same_state, is_running, is_stopping,
}
use supvisors.Process.{ProcessInfo, Supervisor, IsSupervisor}
use supvisors.Process.Status.{first_state, latest_from, latest, running_state}

-- A process runs, or is about to stop.
abbrev pub is_live : ProcessState → Bool
is_live s = is_running s || is_stopping s

bool_eq : (a b : Bool) → (a ≡ true → b ≡ true) → (b ≡ true → a ≡ true) → a ≡ b
bool_eq true b f g = sym (f refl)
bool_eq false true f g = g refl
bool_eq false false f g = refl

same_state_refl : (s : ProcessState) → same_state s s ≡ true
same_state_refl s = ground arith

-- What is found of a list of running-like states, with STOPPING behind them.
first_state-running :
    (states found : List ProcessState)
    → ((s : ProcessState) → has_state s states ≡ true → is_running s ≡ true)
    → is_running (first_state (states ++ stopping ∷ []) found unknown)
      ≡ any (λ s. has_state s found) states
unfolding first_state
first_state-running [] found h = ground arith
first_state-running (s ∷ states) found h = ground (
  arith,
  h s (any-of_In (λ t. same_state t s) (here refl) (same_state_refl s)),
  first_state-running states found (λ t e. h t (ground arith)),
)

first_state-stopping :
    (states found : List ProcessState)
    → ((s : ProcessState) → has_state s states ≡ true → is_running s ≡ true)
    → is_stopping (first_state (states ++ stopping ∷ []) found unknown)
      ≡ not (any (λ s. has_state s found) states) && has_state stopping found
unfolding first_state
first_state-stopping [] found h = ground arith
first_state-stopping (s ∷ states) found h = ground (
  arith,
  h s (any-of_In (λ t. same_state t s) (here refl) (same_state_refl s)),
  first_state-stopping states found (λ t e. h t (ground arith)),
)

any_stopping : (found : List ProcessState) → has_state stopping found ≡ any is_stopping found
any_stopping [] = refl
any_stopping (s ∷ found) = ground (arith, any_stopping found)

module _ (sup : Supervisor) (law : IsSupervisor sup) where
  any_running :
      (found : List ProcessState)
      → any (λ s. has_state s found) sup.running_states ≡ any is_running found
  any_running found = bool_eq _ _ forward backward
    where
      forward : any (λ s. has_state s found) sup.running_states ≡ true → any is_running found ≡ true
      forward h =
          let (s, i, q) = In-of_any (λ s. has_state s found) sup.running_states h in
          let (t, j, e) = In-of_any (λ t. same_state t s) found q in
          let here_s : has_state s sup.running_states ≡ true =
            any-of_In (λ t. same_state t s) i (same_state_refl s) in
          any-of_In is_running j (rw (same_state-eq t s e) (sym (law.running_iff s) ∙ here_s))

      backward :
          any is_running found ≡ true → any (λ s. has_state s found) sup.running_states ≡ true
      backward h =
          let (t, j, r) = In-of_any is_running found h in
          let (s, i, e) =
            In-of_any (λ s. same_state s t) sup.running_states (law.running_iff t ∙ r) in
          any-of_In (λ s. has_state s found) i
            (any-of_In (λ u. same_state u s) j (rw (same_state-eq s t e) (same_state_refl t)))

  -- The synthesis of a conflict is running-like exactly if some state is.
  pub running_state-running :
      (found : List ProcessState) → is_running (running_state sup found) ≡ any is_running found
  unfolding running_state
  running_state-running found =
      first_state-running sup.running_states found (λ s e. sym (law.running_iff s) ∙ e)
      ∙ any_running found

  pub running_state-stopping :
      (found : List ProcessState)
      → is_stopping (running_state sup found) ≡ not (any is_running found) && any is_stopping found
  unfolding running_state
  running_state-stopping found =
      first_state-stopping sup.running_states found (λ s e. sym (law.running_iff s) ∙ e)
      ∙ ground (arith, any_running found, any_stopping found)

-- The most recent of the entries is one of them.
In-latest_from :
    (best : ProcessInfo) (infos : List ProcessInfo) → In (latest_from best infos) (best ∷ infos)
unfolding latest_from
In-latest_from best [] = here refl
In-latest_from best (info ∷ infos) = elim (Bool-cases (ltb best.local_mtime info.local_mtime)) [
  | inl e ↦ rw e (there (In-latest_from info infos))
  | inr e ↦ rw e (skip (In-latest_from best infos))
]
  where
    skip : {r : ProcessInfo} → In r (best ∷ infos) → In r (best ∷ info ∷ infos)
    skip (here q) = here q
    skip (there i) = there (there i)

pub In-latest :
    (infos : List ProcessInfo) {info : ProcessInfo} → latest infos ≡ some info → In info infos
unfolding latest
In-latest [] h = absurd (ground arith)
In-latest (i ∷ infos) {info} h = subst (λ r. In r (i ∷ infos)) (same h) (In-latest_from i infos)
  where
    same : some (latest_from i infos) ≡ some info → latest_from i infos ≡ info
    same q = ground arith

newer :
    (best info : ProcessInfo)
    → let next = if ltb best.local_mtime info.local_mtime then info else best in
      (best.local_mtime ≤ next.local_mtime) × (info.local_mtime ≤ next.local_mtime)
newer best info = ground arith

-- No entry is more recent than the one that `latest` finds.
latest_from-le :
    (best : ProcessInfo) (infos : List ProcessInfo)
    → (best.local_mtime ≤ (latest_from best infos).local_mtime)
      × All (λ info. info.local_mtime ≤ (latest_from best infos).local_mtime) infos
unfolding latest_from
latest_from-le best [] = (omega arith, tt)
latest_from-le best (info ∷ infos) =
    let (b, r) =
      latest_from-le (if ltb best.local_mtime info.local_mtime then info else best) infos in
    (omega (arith, b, (newer best info).0), (omega (arith, b, (newer best info).1), r))

pub latest-le :
    (infos : List ProcessInfo) {info : ProcessInfo}
    → latest infos ≡ some info
    → All (λ i. i.local_mtime ≤ info.local_mtime) infos
unfolding latest
latest-le [] h = tt
latest-le (i ∷ infos) {info} h =
    subst {A = ProcessInfo} (λ r. All (λ j. j.local_mtime ≤ r.local_mtime) (i ∷ infos)) (same h)
      (latest_from-le i infos)
  where
    same : some (latest_from i infos) ≡ some info → latest_from i infos ≡ info
    same q = ground arith
