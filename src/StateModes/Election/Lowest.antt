-- ===== src/StateModes/Election/Lowest.antt =====
-- `min` by the nick identifier, over a set that can be listed in any order.
use supvisors.Prelude.{
  true, List, [], ◌∷◌, Option, none, some, Name, ◌≡◌, ◌≢◌, ◌⊎◌, refl, arith, Bool-cases,
  Option-cases, In, here, there, inl, inr, sym, ◌∙◌, ap, some_eq, subst,
}
use supvisors.Prelude.NameSet.{NameSet, contains, contains-In, In-contains}
use supvisors.Prelude.Order.{name_le, name_le_refl, name_le_total, name_le_trans, name_le_antisymm}
use supvisors.StateModes.Master.{lowest_from, lowest}

-- `n` is the key of `r` and at most the key of `k`.
abbrev pub AtMost : (Name → Option Name) → Name → Name → Type 0
AtMost nick n k = (key : Name) × (nick k ≡ some key) × (name_le n key ≡ true)

abbrev IsLowest : (Name → Option Name) → List Name → Name → Type 0
IsLowest nick ks r =
    In r ks × ((n : Name) × (nick r ≡ some n) × ((k : Name) → In k ks → AtMost nick n k))

-- All the names have keys, and different ones have different keys.
pub record IsKeyed (nick : Name → Option Name) (s : NameSet) : Type 0 where
  pub keyed : (k : Name) → contains k s ≡ true → nick k ≢ none
  pub distinct : (j k : Name) → contains j s ≡ true → contains k s ≡ true → nick j ≡ nick k → j ≡ k

module _ (nick : Name → Option Name) where
  -- A candidate whose key is not lower than that of another one changes nothing.
  AtMost-weaken :
      (n a na b nb : Name)
      → nick a ≡ some na
      → nick b ≡ some nb
      → name_le na nb ≡ true
      → AtMost nick n a
      → AtMost nick n b
  AtMost-weaken n a na b nb ea eb le (key, e, q) =
      let same : key ≡ na = some_eq (sym e ∙ ea) in
      (nb, eb, name_le_trans n na nb (subst (λ x. name_le n x ≡ true) same q) le)

  In-dropped :
      {a b r : Name} {ks : List Name} → In r (a ∷ ks) → In r (a ∷ b ∷ ks) × In r (b ∷ a ∷ ks)
  In-dropped (here e) = (here e, there (here e))
  In-dropped (there i) = (there (there i), there (there i))

  AtMost-all :
      (n a b k : Name) {ks : List Name}
      → AtMost nick n b
      → ((k : Name) → In k (a ∷ ks) → AtMost nick n k)
      → In k (a ∷ b ∷ ks) ⊎ In k (b ∷ a ∷ ks)
      → AtMost nick n k
  AtMost-all n a b k mb rest (inl (here e)) = rest k (here e)
  AtMost-all n a b k mb rest (inl (there (here e))) = subst (AtMost nick n) e mb
  AtMost-all n a b k mb rest (inl (there (there i))) = rest k (there i)
  AtMost-all n a b k mb rest (inr (here e)) = subst (AtMost nick n) e mb
  AtMost-all n a b k mb rest (inr (there i)) = rest k i

  widen :
      (a na b nb : Name) (ks : List Name) {r : Name}
      → nick a ≡ some na
      → nick b ≡ some nb
      → name_le na nb ≡ true
      → IsLowest nick (a ∷ ks) r
      → IsLowest nick (a ∷ b ∷ ks) r × IsLowest nick (b ∷ a ∷ ks) r
  widen a na b nb ks ea eb le (i, (n, e, rest)) =
      let mb = AtMost-weaken n a na b nb ea eb le (rest a (here refl)) in
      (
        ((In-dropped i).0, (n, e, λ k o. AtMost-all n a b k mb rest (inl o))),
        ((In-dropped i).1, (n, e, λ k o. AtMost-all n a b k mb rest (inr o))),
      )

  lowest_from_lem :
      (best n : Name) (ks : List Name) {r : Name}
      → nick best ≡ some n
      → lowest_from nick best n ks ≡ some r
      → IsLowest nick (best ∷ ks) r
  unfolding lowest_from
  lowest_from_lem best n [] {r} e h =
      (here (some_eq h), (n, ap nick (sym (some_eq h)) ∙ e, λ k i. only k i))
    where
      only : (k : Name) → In k (best ∷ []) → AtMost nick n k
      only k (here q) = (n, ap nick (sym q) ∙ e, name_le_refl n)
      only k (there i) = elim i [ ]
  lowest_from_lem best n (j ∷ ks) {r} e h = elim (Option-cases (nick j)) [
    | inl absent ↦ absurd (ground (arith, h, absent))
    | inr (nj, found) ↦ elim (Bool-cases (name_le n nj)) [
      | inl le ↦
          (widen best n j nj ks e found le
            (lowest_from_lem best n ks e (ground (arith, h, found, le)))).0
      | inr gt ↦
          (widen j nj best n ks found e (ground (arith, name_le_total n nj, gt))
            (lowest_from_lem j nj ks found (ground (arith, h, found, gt)))).1
    ]
  ]

  lowest_lem : (ks : List Name) {r : Name} → lowest nick ks ≡ some r → IsLowest nick ks r
  unfolding lowest
  lowest_lem [] h = absurd (ground arith)
  lowest_lem (k ∷ ks) {r} h = elim (Option-cases (nick k)) [
    | inl absent ↦ absurd (ground (arith, h, absent))
    | inr (n, found) ↦ lowest_from_lem k n ks found (ground (arith, h, found))
  ]

  pub lowest-In : (ks : List Name) {r : Name} → lowest nick ks ≡ some r → In r ks
  lowest-In ks h = (lowest_lem ks h).0

  -- No candidate has a lower key than the one that is found.
  pub lowest-le :
      (ks : List Name) {r k : Name}
      → lowest nick ks ≡ some r
      → In k ks
      → (n : Name) × (nick r ≡ some n) × AtMost nick n k
  lowest-le ks {k = k} h i = let (_, (n, e, rest)) = lowest_lem ks h in (n, e, rest k i)

  -- The order in which the candidates are listed does not matter.
  pub lowest_agree :
      (s t : NameSet) {x y : Name}
      → IsKeyed nick s
      → ((k : Name) → contains k s ≡ contains k t)
      → lowest nick s ≡ some x
      → lowest nick t ≡ some y
      → x ≡ y
  lowest_agree s t {x} {y} h same hx hy =
      let (ix, (nx, ex, lx)) = lowest_lem s hx in
      let (iy, (ny, ey, ly)) = lowest_lem t hy in
      let cx : contains x s ≡ true = In-contains ix in
      let cy : contains y s ≡ true = same y ∙ In-contains iy in
      let (ky, ey', xy) = lx y (contains-In y s cy) in
      let (kx, ex', yx) = ly x (contains-In x t (sym (same x) ∙ cx)) in
      let xy' : name_le nx ny ≡ true =
        subst (λ n. name_le nx n ≡ true) (some_eq (sym ey' ∙ ey)) xy in
      let yx' : name_le ny nx ≡ true =
        subst (λ n. name_le ny n ≡ true) (some_eq (sym ex' ∙ ex)) yx in
      h.distinct x y cx cy (ex ∙ ap some (name_le_antisymm nx ny xy' yx') ∙ sym ey)
