-- ===== src/Commander/Picking.antt =====
-- supvisors/commander.py: the sequence that pickup_logic picks.
use supvisors.Prelude.{
  suc, ◌≡◌, ◌⊎◌, refl, ap, subst, inl, inr, Bool, true, false, List, [], ◌∷◌, Option, none, some,
  Name, length, all, In, here, there, Bool-cases, arith, if◌then◌else◌,
}
use supvisors.Prelude.NameSet.{contains}
use supvisors.Commander.Commands.{ProcessCommand}
use supvisors.Commander.Jobs.{pick}

abbrev pub Planned : Type 0 → Type 0
Planned K = List (K × List ProcessCommand)

abbrev pub is_empty {ℓ} : {A : Type ℓ} → List A → Bool
is_empty [] = true
is_empty (x ∷ xs) = false

abbrev pub processes_of : List ProcessCommand → List Name
processes_of [] = []
processes_of (cmd ∷ cmds) = cmd.process ∷ processes_of cmds

-- Whether the processes of the commands are all among those.
abbrev pub within : List Name → List ProcessCommand → Bool
within names cmds = all (λ cmd. contains cmd.process names) cmds

-- The jobs that are left: those that were planned, or none at all after an abort.
module _ {K : Type 0} where
  abbrev pub IsPart : Planned K → Planned K → Type 0
  IsPart planned planned' = (x : K × List ProcessCommand) → In x planned' → In x planned

module _ {K : Type 0} (precedes : K → K → Bool)
    (total : (a b : K) → (precedes a b ≡ true) ⊎ (precedes b a ≡ true))
    (trans : (a b c : K) → precedes a b ≡ true → precedes b c ≡ true → precedes a c ≡ true) where
  -- The entry that is picked was planned, so were the others, and none of them precedes it.
  pub record IsPicked (planned : Planned K) (x : K × List ProcessCommand) (others : Planned K)
      : Type 0 where
    pub member : In x planned
    pub part : IsPart planned others
    pub whole : (y : K × List ProcessCommand) → In y planned → (x ≡ y) ⊎ In y others
    pub first : (y : K × List ProcessCommand) → In y others → precedes x.0 y.0 ≡ true
    pub shorter : length planned ≡ suc (length others)

  abbrev pub Picked : Planned K → Option ((K × List ProcessCommand) × Planned K) → Type 0
  Picked planned none = is_empty planned ≡ true
  Picked planned (some (x, others)) = IsPicked planned x others

  pub pick-Picked : (planned : Planned K) → Picked planned (pick precedes planned)
  unfolding pick
  pick-Picked [] = refl
  pick-Picked (x ∷ planned) = extended (pick precedes planned) refl (pick-Picked planned)
    where
      extended :
          (o : Option ((K × List ProcessCommand) × Planned K))
          → pick precedes planned ≡ o
          → Picked planned o
          → Picked (x ∷ planned) (elim o [
            | none ↦ some (x, planned)
            | some (y, others) ↦ some (if precedes x.0 y.0 then (x, planned) else (y, x ∷ others))
          ])
      extended none e p = record {
        member = here refl;
        part = λ y i. there i;
        whole = λ y i. elim i [ here q ↦ inl q | there k ↦ inr k ];
        first = λ y i.
            elim planned as (λ xs. is_empty xs ≡ true → In y xs → precedes x.0 y.0 ≡ true) [
              | [] ↦ λ h k. elim k [ ]
              | z ∷ zs ↦ λ h k. absurd (ground (arith, h))
            ]
              p i;
        shorter = refl;
      }
      extended (some (y, others)) e p = elim (Bool-cases (precedes x.0 y.0)) [
        | inl q ↦ rw q (record {
          member = here refl;
          part = λ z i. there i;
          whole = λ z i. elim i [ here r ↦ inl r | there k ↦ inr k ];
          first = λ z i. elim (p.whole z i) [
            | inl r ↦ subst (λ w. precedes x.0 w.0 ≡ true) r q
            | inr k ↦ trans x.0 y.0 z.0 q (p.first z k)
          ];
          shorter = refl;
        })
        | inr q ↦ rw q (record {
          member = there p.member;
          part = λ z i. elim i [ here r ↦ here r | there k ↦ there (p.part z k) ];
          whole = λ z i. elim i [
            | here r ↦ inr (here r)
            | there k ↦ elim (p.whole z k) [ inl r ↦ inl r | inr m ↦ inr (there m) ]
          ];
          first = λ z i. elim i [
            | here r ↦ subst (λ w. precedes y.0 w.0 ≡ true) r (ground (arith, total x.0 y.0, q))
            | there k ↦ p.first z k
          ];
          shorter = ap suc p.shorter;
        })
      ]
