-- ===== src/StateModes/Election.antt =====
-- The election of a Master: what `check_master` accepts and what `select_master` selects.
pub mod Lowest
pub mod Agreement
use supvisors.Prelude.{
  ℕ, Bool, true, false, ◌&&◌, ◌||◌, not, List, [], ◌∷◌, Option, none, some, Name, if◌then◌else◌,
  ◌==◌, ◌≡◌, all, all-of_In, ◌≢◌, ◌↔◌, ◌⊎◌, refl, arith, Bool-cases, Option-cases, In, here, there,
  In-keep, In-of_keep, keep, inl, inr, sym, ◌∙◌, length, ltb, ap, name_iff, some_eq, subst,
}
use supvisors.Prelude.Dict.{Dict, lookup}
use supvisors.Prelude.NameSet.{
  NameSet, contains, discard, of_list, contains-In, In-contains, contains-discard, contains-of_list,
}
use supvisors.Prelude.Order.{name_le}
use supvisors.StateModes.{StateModes, SupvisorsStateModes, Mapper}
use supvisors.StateModes.Views.{running_identifiers}
use supvisors.StateModes.Updates.{set_master_identifier}
use supvisors.StateModes.Stability.{running_modes}
use supvisors.StateModes.Master.{
  masters_of, get_master_identifiers, check_master, nick_identifier, lowest, all_candidates,
  candidates, select_master, accept_master, or_else,
}
use Lowest.{lowest-In, lowest-le, AtMost}

-- All of the instances declare one Master.
abbrev pub declare : Name → List StateModes → Bool
declare k sms = all (λ sm. sm.master_identifier == k) sms

In-masters_of :
    {sm : StateModes} {sms : List StateModes}
    → In sm sms
    → In (sm.master_identifier) (masters_of sms)
In-masters_of (here e) = here (ap StateModes.master_identifier e)
In-masters_of (there i) = there (In-masters_of i)

In-of_masters_of :
    {k : Name} (sms : List StateModes)
    → In k (masters_of sms)
    → (sm : StateModes) × In sm sms × (sm.master_identifier ≡ k)
In-of_masters_of [] i = elim i [ ]
In-of_masters_of (sm ∷ sms) (here e) = (sm, here refl, e)
In-of_masters_of (sm ∷ sms) (there i) =
    let (other, j, e) = In-of_masters_of sms i in (other, there j, e)

-- The names that `get_master_identifiers` gives are those that running instances declare.
contains-get_master_identifiers :
    (m : SupvisorsStateModes) (k : Name)
    → contains k (get_master_identifiers m) ≡ contains k (masters_of (running_modes m))
unfolding get_master_identifiers
contains-get_master_identifiers m k = contains-of_list k (masters_of (running_modes m))

one_member :
    (s : NameSet) (j k : Name)
    → ltb 1 (length s) ≡ false
    → contains j s ≡ true
    → contains k s ≡ true
    → j ≡ k
unfolding contains
one_member [] j k h cj ck = absurd (ground arith)
one_member (i ∷ []) j k h cj ck = ground (arith, name_iff i j, name_iff i k)
one_member (i ∷ i' ∷ s) j k h cj ck = absurd (ground arith)

pub check_master-declare :
    (m : SupvisorsStateModes) {sm : StateModes}
    → check_master m ≡ true
    → In sm (running_modes m)
    → (sm.master_identifier ≢ "") × (declare sm.master_identifier (running_modes m) ≡ true)
unfolding check_master
check_master-declare m {sm} h i =
    (named, all-of_In _ (running_modes m) (λ other j. (name_iff _ _).1 (agreed other j)))
  where
    declared :
        {other : StateModes}
        → In other (running_modes m)
        → contains other.master_identifier (get_master_identifiers m) ≡ true
    declared {other} j =
        contains-get_master_identifiers m other.master_identifier ∙ In-contains (In-masters_of j)

    named : sm.master_identifier ≢ ""
    named e = ground (arith, h, declared i, ap (λ k. contains k (get_master_identifiers m)) e)

    agreed :
        (other : StateModes)
        → In other (running_modes m)
        → other.master_identifier ≡ sm.master_identifier
    agreed other j =
        one_member (get_master_identifiers m) other.master_identifier sm.master_identifier
          (ground (arith, h)) (declared j) (declared i)

In-or_else :
    {k : Name} (xs ys : List Name)
    → In k (or_else xs ys)
    → In k xs ⊎ (((j : Name) → contains j xs ≡ false) × In k ys)
unfolding contains
In-or_else [] ys i = inr ((λ j. refl), i)
In-or_else (x ∷ xs) ys i = inl i

module _ (m : SupvisorsStateModes) {m' : SupvisorsStateModes} where
  selected :
      select_master m ≡ some m'
      → (k : Name) × (lowest (nick_identifier m.mapper) (candidates m) ≡ some k)
        × (set_master_identifier k m ≡ m')
  unfolding select_master
  selected h = elim (Option-cases (lowest (nick_identifier m.mapper) (candidates m))) [
    | inl e ↦ absurd (ground (arith, h, e))
    | inr (k, e) ↦ (k, e, ground (arith, h, e))
  ]

  set_master :
      (k : Name) → set_master_identifier k m ≡ m' → m'.local_state_modes.master_identifier ≡ k
  unfolding set_master_identifier
  set_master k h = ground (arith, name_iff m.local_state_modes.master_identifier k)

candidate_source :
    (m : SupvisorsStateModes) {k : Name} → In k (candidates m) → In k (all_candidates m)
unfolding candidates
candidate_source m {k} i = elim (In-or_else _ _ i) [
  | inl j ↦
      contains-In k (all_candidates m)
        (In-of_keep (λ k. contains k (all_candidates m)) m.mapper.core_identifiers j).1
  | inr (_, j) ↦ j
]

-- The Master that is selected has been declared by a running instance, or it runs itself and no
-- running instance declares any.
pub select_master-source :
    (m : SupvisorsStateModes) {m' : SupvisorsStateModes}
    → select_master m ≡ some m'
    → let k = m'.local_state_modes.master_identifier in
      ((sm : StateModes) × In sm (running_modes m) × (sm.master_identifier ≡ k) × (k ≢ ""))
      ⊎ ((contains k (running_identifiers m.local_state_modes) ≡ true)
          × (declare "" (running_modes m) ≡ true))
unfolding all_candidates
select_master-source m {m'} h =
    let (k, found, set) = selected m h in
    let same : k ≡ m'.local_state_modes.master_identifier = sym (set_master m k set) in
    subst Source same
      (elim (In-or_else (discard "" (get_master_identifiers m)) _
        (candidate_source m (lowest-In (nick_identifier m.mapper) (candidates m) found))) [
          | inl i ↦ inl (declared k (In-contains i))
          | inr (none_declared, i) ↦ inr (
            In-contains i,
            all-of_In _ (running_modes m)
                (λ sm j. (name_iff _ _).1 (undeclared none_declared sm j)),
          )
        ])
  where
    Source : Name → Type 0
    Source k =
        ((sm : StateModes) × In sm (running_modes m) × (sm.master_identifier ≡ k) × (k ≢ ""))
        ⊎ ((contains k (running_identifiers m.local_state_modes) ≡ true)
            × (declare "" (running_modes m) ≡ true))

    declared :
        (k : Name)
        → contains k (discard "" (get_master_identifiers m)) ≡ true
        → (sm : StateModes) × In sm (running_modes m) × (sm.master_identifier ≡ k) × (k ≢ "")
    declared k c =
        let d = contains-discard "" k (get_master_identifiers m) in
        let known : contains k (masters_of (running_modes m)) ≡ true =
          ground (arith, d, c, contains-get_master_identifiers m k) in
        let (sm, i, e) = In-of_masters_of (running_modes m) (contains-In k _ known) in
        (sm, i, e, λ q. ground (arith, d, c, name_iff "" k, sym q))

    undeclared :
        ((j : Name) → contains j (discard "" (get_master_identifiers m)) ≡ false)
        → (sm : StateModes) → In sm (running_modes m)
        → sm.master_identifier ≡ ""
    undeclared h sm i =
        let k = sm.master_identifier in
        sym (
          (name_iff "" k).0 (
            ground (
              arith,
              h k,
              contains-discard "" k (get_master_identifiers m),
              contains-get_master_identifiers m k,
              In-contains (In-masters_of i),
            )))

-- No candidate has a nick identifier lower than that of the Master that is selected.
pub select_master-lowest :
    (m : SupvisorsStateModes) (c : Name) {m' : SupvisorsStateModes}
    → select_master m ≡ some m'
    → In c (candidates m)
    → (n : Name) × (nick_identifier m.mapper m'.local_state_modes.master_identifier ≡ some n)
      × AtMost (nick_identifier m.mapper) n c
select_master-lowest m c h i =
    let (k, found, set) = selected m h in
    let (n, e, le) = lowest-le (nick_identifier m.mapper) (candidates m) found i in
    (n, ap (nick_identifier m.mapper) (set_master m k set) ∙ e, le)

-- A core instance is selected, if a Master is selected and a core instance is a candidate.
pub select_master-core :
    (m : SupvisorsStateModes) (c : Name) {m' : SupvisorsStateModes}
    → select_master m ≡ some m'
    → In c m.mapper.core_identifiers
    → contains c (all_candidates m) ≡ true
    → In m'.local_state_modes.master_identifier m.mapper.core_identifiers
unfolding candidates
select_master-core m c {m'} h core candidate =
    let (k, found, set) = selected m h in
    let same : k ≡ m'.local_state_modes.master_identifier = sym (set_master m k set) in
    subst (λ j. In j m.mapper.core_identifiers) same
      (elim (In-or_else (keep is_candidate m.mapper.core_identifiers) _
        (lowest-In (nick_identifier m.mapper) (candidates m) found)) [
          | inl i ↦ (In-of_keep is_candidate m.mapper.core_identifiers i).0
          | inr (no_core, _) ↦
              absurd (ground (arith, no_core c, In-contains (In-keep is_candidate core candidate)))
        ])
  where
    is_candidate : Name → Bool
    is_candidate k = contains k (all_candidates m)
