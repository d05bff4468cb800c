-- ===== src/Context/Known.antt =====
-- supvisors/context.py and supvisors/internal_com/mapper.py: the Context has its instances from the
-- mapper, so that a discovery, which the mapper has not seen, cannot overwrite one.
use supvisors.Prelude.{
  ℕ, true, false, ◌&&◌, none, Name, ◌==◌, ◌≡◌, arith, Bool-cases, inl, inr, sym, ◌∙◌, ap, subst,
  name_iff,
}
use supvisors.Prelude.Dict.{lookup}
use supvisors.Types.InstanceStates.{SupvisorsInstanceStates, isolated, same_state}
use supvisors.StateModes.{Mapper, SupvisorsStateModes}
use supvisors.Context.{Context, context_of, state_in}
use supvisors.Context.Setter.{set_state}
use supvisors.Context.Effect.{Accepted, set_state-Accepted}
use supvisors.Context.Discovered.{Discovered, is_mapped}
use supvisors.Context.Closure.{SameStates, IsClosed}

-- The mapper has the instances of the Context, and the local one.
pub record AreMapped (c : Context) : Type 0 where
  pub instances : (k : Name) → is_mapped k c ≡ false → state_in k c.instances ≡ none
  pub local : is_mapped c.state_modes.local_identifier c ≡ true

-- Kept by the setter, by the other changes, and by a discovery of an instance that is new.
pub record IsKept (Q : Context → Type 0) : Type 0 where
  pub set :
      (mtime : ℕ) (s : SupvisorsInstanceStates) (k : Name) (c : Context)
      → (same_state s isolated && k == c.state_modes.local_identifier) ≡ false
      → Q c
      → Q (context_of (set_state mtime s k c))
  pub keep : (c c' : Context) → SameStates c c' → Q c → Q c'
  pub discover :
      (k : Name) (c c' : Context)
      → Discovered k c c'
      → state_in k c.instances ≡ none
      → (k == c.state_modes.local_identifier) ≡ false
      → Q c
      → Q c'

Accepted-AreMapped :
    (k : Name) (s : SupvisorsInstanceStates) (c c' : Context)
    → Accepted k s c c'
    → AreMapped c
    → AreMapped c'
Accepted-AreMapped k s c c' a h = record {
  instances = λ j e.
      let unknown = h.instances j (sym (mapped j) ∙ e) in
      elim (Bool-cases (k == j)) [
        | inr q ↦ ground (arith, a.states j, q, unknown)
        | inl q ↦
            ground (arith, ap (λ n. state_in n c.instances) ((name_iff k j).0 q), a.found, unknown)
      ];
  local = mapped c'.state_modes.local_identifier ∙ ap (λ n. is_mapped n c) a.local ∙ h.local;
}
  where
    mapped : (j : Name) → is_mapped j c' ≡ is_mapped j c
    mapped j = ground (arith, ap (λ (m : Mapper). lookup j m.instances) a.mapper)

Same-AreMapped : (c c' : Context) → SameStates c c' → AreMapped c → AreMapped c'
Same-AreMapped c c' same h = record {
  instances = λ j e. same.instances j ∙ h.instances j (sym (mapped j) ∙ e);
  local =
      mapped c'.state_modes.local_identifier
      ∙ ap (λ (m : SupvisorsStateModes). is_mapped m.local_identifier c) same.state_modes
      ∙ h.local;
}
  where
    mapped : (j : Name) → is_mapped j c' ≡ is_mapped j c
    mapped j =
        ground
          (arith, ap (λ (m : SupvisorsStateModes). lookup j m.mapper.instances) same.state_modes)

Discovered-AreMapped : (k : Name) (c c' : Context) → Discovered k c c' → AreMapped c → AreMapped c'
Discovered-AreMapped k c c' d h = record {
  instances = λ j e. ground (arith, d.states j, d.mapped j, e, h.instances j);
  local =
      ground
        (arith, ap (λ n. is_mapped n c') d.local, d.mapped c.state_modes.local_identifier, h.local);
}

-- The local instance is known, so it is not discovered.
not_local :
    (k : Name) (c : Context)
    → is_mapped k c ≡ false
    → AreMapped c
    → (k == c.state_modes.local_identifier) ≡ false
not_local k c unknown h = elim (Bool-cases (k == c.state_modes.local_identifier)) [
  | inr e ↦ e
  | inl e ↦ absurd (
      ground (
        arith,
        ap (λ n. is_mapped n c) ((name_iff k c.state_modes.local_identifier).0 e),
        unknown,
        h.local,
      ))
]

pub mapped-IsClosed : {Q : Context → Type 0} → IsKept Q → IsClosed (λ c. AreMapped c × Q c)
mapped-IsClosed {Q} kept = record {
  set = λ mtime s k c safe (h, q). (
    elim (set_state-Accepted mtime s k c) [
      | inl e ↦ subst AreMapped (sym e) h
      | inr a ↦ Accepted-AreMapped k s c _ a h
    ],
    kept.set mtime s k c safe q,
  );
  keep = λ c c' same (h, q). (Same-AreMapped c c' same h, kept.keep c c' same q);
  discover = λ k c c' d (h, q). (
    Discovered-AreMapped k c c' d h,
    kept.discover k c c' d (h.instances k d.unknown) (not_local k c d.unknown h) q,
  );
}
