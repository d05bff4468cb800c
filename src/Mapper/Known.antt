-- ===== src/Mapper/Known.antt =====
-- supvisors/internal_com/mapper.py: the identifiers that SupvisorsMapper gives are those of instances
-- that it knows.
use supvisors.Prelude.{
  ◌≡◌, refl, ap, subst, inl, inr, Bool, true, false, ◌&&◌, List, [], ◌∷◌, ◌++◌, Option, none, some,
  Name, ◌==◌, name_iff, keep, all, Bool-cases, Option-cases, some_eq, arith,
}
use supvisors.Prelude.Dict.{Dict, lookup, insert}
use supvisors.Prelude.NameSet.{contains}
use supvisors.Mapper.{SupvisorsMapper}
use supvisors.Mapper.InstanceId.{SupvisorsInstanceId}
use supvisors.Mapper.Identify.{store_stereotypes, add_node}

abbrev pub is_some {ℓ} : {A : Type ℓ} → Option A → Bool
is_some none = false
is_some (some a) = true

abbrev pub knows : SupvisorsMapper → Name → Bool
knows m k = is_some (lookup k m.instances)

-- Lists of known identifiers, under any keys.
abbrev pub all_known : (Name → Bool) → Dict (List Name) → Bool
all_known known [] = true
all_known known ((s, ks) ∷ d) = all known ks && all_known known d

abbrev pub nicks_known : (Name → Bool) → Dict Name → Bool
nicks_known known [] = true
nicks_known known ((n, k) ∷ d) = known k && nicks_known known d

-- Each instance stands under its identifier.
abbrev pub all_named : Dict SupvisorsInstanceId → Bool
all_named [] = true
all_named ((k, i) ∷ d) = (i.identifier == k) && all_named d

-- Nicknames, nodes and stereotypes stand for known instances.
pub record IsKnown (m : SupvisorsMapper) : Type 0 where
  pub named : all_named m.instances ≡ true
  pub nicks : nicks_known (knows m) m.nick_identifiers ≡ true
  pub nodes : all_known (knows m) m.nodes ≡ true
  pub stereotypes : all_known (knows m) m.stereotypes ≡ true

pub all_named-insert :
    (k : Name) (i : SupvisorsInstanceId) (d : Dict SupvisorsInstanceId)
    → (i.identifier == k) ≡ true
    → all_named d ≡ true
    → all_named (insert k i d) ≡ true
unfolding insert
all_named-insert k i [] h g = ground (arith, h)
all_named-insert k i ((j, v) ∷ d) h g = ground (arith, h, g, all_named-insert k i d)

pub all_named-lookup :
    (k : Name) (i : SupvisorsInstanceId) (d : Dict SupvisorsInstanceId)
    → lookup k d ≡ some i
    → all_named d ≡ true
    → (i.identifier == k) ≡ true
unfolding lookup
all_named-lookup k i [] e g = absurd (ground (arith, e))
all_named-lookup k i ((j, v) ∷ d) e g = elim (Bool-cases (j == k)) [
  | inl q ↦
      subst (λ w. (w.identifier == k) ≡ true) (some_eq (rw q at e))
        (subst (λ n. (v.identifier == n) ≡ true) ((name_iff j k).0 q) (ground (arith, g)))
  | inr q ↦ all_named-lookup k i d (rw q at e) (ground (arith, g))
]

module _ (known known' : Name → Bool) (more : (k : Name) → known k ≡ true → known' k ≡ true) where
  all-more : (ks : List Name) → all known ks ≡ true → all known' ks ≡ true
  all-more [] h = refl
  all-more (k ∷ ks) h = ground (arith, h, more k, all-more ks)

  pub all_known-more : (d : Dict (List Name)) → all_known known d ≡ true → all_known known' d ≡ true
  all_known-more [] h = refl
  all_known-more ((s, ks) ∷ d) h = ground (arith, h, all-more ks, all_known-more d)

  pub nicks_known-more : (d : Dict Name) → nicks_known known d ≡ true → nicks_known known' d ≡ true
  nicks_known-more [] h = refl
  nicks_known-more ((n, k) ∷ d) h = ground (arith, h, more k, nicks_known-more d)

module _ (known : Name → Bool) where
  all_known-insert :
      (s : Name) (ks : List Name) (d : Dict (List Name))
      → all known ks ≡ true
      → all_known known d ≡ true
      → all_known known (insert s ks d) ≡ true
  unfolding insert
  all_known-insert s ks [] h g = ground (arith, h)
  all_known-insert s ks ((t, js) ∷ d) h g = ground (arith, h, g, all_known-insert s ks d)

  pub nicks_known-insert :
      (n k : Name) (d : Dict Name)
      → known k ≡ true
      → nicks_known known d ≡ true
      → nicks_known known (insert n k d) ≡ true
  unfolding insert
  nicks_known-insert n k [] h g = ground (arith, h)
  nicks_known-insert n k ((t, j) ∷ d) h g = ground (arith, h, g, nicks_known-insert n k d)

  pub all_known-lookup :
      (s : Name) (d : Dict (List Name)) (ks : List Name)
      → lookup s d ≡ some ks
      → all_known known d ≡ true
      → all known ks ≡ true
  unfolding lookup
  all_known-lookup s [] ks e h = absurd (ground (arith, e))
  all_known-lookup s ((t, js) ∷ d) ks e h = elim (Bool-cases (t == s)) [
    | inl q ↦ subst (λ l. all known l ≡ true) (some_eq (rw q at e)) (ground (arith, h))
    | inr q ↦ all_known-lookup s d ks (rw q at e) (ground (arith, h))
  ]

  pub nicks_known-lookup :
      (n : Name) (d : Dict Name) (k : Name)
      → lookup n d ≡ some k
      → nicks_known known d ≡ true
      → known k ≡ true
  unfolding lookup
  nicks_known-lookup n [] k e h = absurd (ground (arith, e))
  nicks_known-lookup n ((t, j) ∷ d) k e h = elim (Bool-cases (t == n)) [
    | inl q ↦ subst (λ l. known l ≡ true) (some_eq (rw q at e)) (ground (arith, h))
    | inr q ↦ nicks_known-lookup n d k (rw q at e) (ground (arith, h))
  ]

  pub all-append :
      (xs ys : List Name) → all known xs ≡ true → all known ys ≡ true → all known (xs ++ ys) ≡ true
  all-append [] ys h g = g
  all-append (x ∷ xs) ys h g = ground (arith, h, all-append xs ys)

  pub all-contains :
      (ks : List Name) (k : Name) → all known ks ≡ true → contains k ks ≡ true → known k ≡ true
  unfolding contains
  all-contains [] k h i = absurd (ground arith)
  all-contains (j ∷ ks) k h i = ground (arith, name_iff j k, ap known, all-contains ks k)

  -- The list of a stereotype, in the order of the instances.
  ordered_known :
      (order ks : List Name)
      → all known ks ≡ true
      → all known (keep (λ x. contains x ks) order) ≡ true
  ordered_known [] ks h = refl
  ordered_known (x ∷ order) ks h = ground (arith, all-contains ks x h, ordered_known order ks h)

  pub store_stereotypes-known :
      (ss : List Name) (k : Name) (order : List Name) (d : Dict (List Name))
      → known k ≡ true
      → all_known known d ≡ true
      → all_known known (store_stereotypes ss k order d) ≡ true
  unfolding store_stereotypes
  store_stereotypes-known [] k order d h g = g
  store_stereotypes-known (s ∷ ss) k order d h g = elim (Option-cases (lookup s d)) [
    | inl e ↦ rw e (
        store_stereotypes-known ss k order _ h
          (all_known-insert s (k ∷ []) d (ground (arith, h)) g))
    | inr (ks, e) ↦ rw e (
        store_stereotypes-known ss k order _ h (
          all_known-insert s (keep (λ x. contains x (ks ++ (k ∷ []))) order) d
            (ordered_known order (ks ++ (k ∷ []))
              (all-append ks (k ∷ []) (all_known-lookup s d ks e g) (ground (arith, h))))
            g))
  ]

  pub add_node-known :
      (machine k : Name) (nodes : Dict (List Name))
      → known k ≡ true
      → all_known known nodes ≡ true
      → all_known known (add_node machine k nodes) ≡ true
  unfolding add_node
  add_node-known machine k nodes h g = elim (Option-cases (lookup machine nodes)) [
    | inl e ↦ rw (e, add_node) (all_known-insert machine (k ∷ []) nodes (ground (arith, h)) g)
    | inr (ks, e) ↦ elim (Bool-cases (contains k ks)) [
      | inl q ↦ rw (e, q, add_node) g
      | inr q ↦
          rw (e, q, add_node)
            (all_known-insert machine (ks ++ (k ∷ [])) nodes
              (all-append ks (k ∷ []) (all_known-lookup machine nodes ks e g) (ground (arith, h)))
              g)
    ]
  ]
