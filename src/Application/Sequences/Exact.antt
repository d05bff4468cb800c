-- ===== src/Application/Sequences/Exact.antt =====
-- The sequences of supvisors/application.py against the rules of the processes.
use supvisors.Prelude.{
  ℕ, ◌+◌, ◌≡◌, refl, ◌↔◌, inl, inr, Bool, true, false, ◌&&◌, List, [], ◌∷◌, ◌++◌, Option, none,
  some, Name, ◌==◌, nat_beq, nat_beq_iff, name_iff, Bool-cases, arith, ap, if◌then◌else◌,
}
use supvisors.Prelude.Dict.{Dict, lookup}
use supvisors.Prelude.Dict.Values.{IsDict}
use supvisors.Prelude.Integers.{ℤ, int_beq, int_beq_iff}
use supvisors.Process.{ProcessStatus}
use supvisors.Application.{ApplicationStatus}
use supvisors.Application.Sequences.{append_at, fill, update_sequences}

-- How often a name is listed.
unfoldable pub count : Name → List Name → ℕ
count k [] = 0
count k (j ∷ ks) = (if j == k then 1 else 0) + count k ks

-- Whether the process of that name, if there is one, has the property.
abbrev pub has : (ProcessStatus → Bool) → Option ProcessStatus → Bool
has p none = false
has p (some s) = p s

count-append : (k : Name) (xs ys : List Name) → count k (xs ++ ys) ≡ count k xs + count k ys
unfolding count
count-append k [] ys = ground arith
count-append k (x ∷ xs) ys = ground (arith, count-append k xs ys)

abbrev one : Bool → ℕ
one b = if b then 1 else 0

module _ {K : Type 0} (eq : K → K → Bool) where
  -- The names of one number.
  unfoldable pub at : K → List (K × List Name) → List Name
  at n [] = []
  at n ((m, ks) ∷ seq) = if eq m n then ks else at n seq

module _ {K : Type 0} (eq : K → K → Bool) (law : (a b : K) → (eq a b ≡ true) ↔ (a ≡ b)) where
  count-append_at :
      (seq : List (K × List Name)) (m n : K) (j k : Name)
      → count k (at eq n (append_at eq m j seq)) ≡ count k (at eq n seq) + one (eq m n && (j == k))
  unfolding at append_at count
  count-append_at [] m n j k = ground arith
  count-append_at ((i, ks) ∷ seq) m n j k =
      ground
        (arith, law i m, law m n, law i n, count-append k ks (j ∷ []), count-append_at seq m n j k)

  count-fill :
      (d : Dict ProcessStatus) (number : ProcessStatus → K) (seq : List (K × List Name)) (n : K)
      (k : Name)
      → IsDict d
      → count k (at eq n (fill eq d number seq))
        ≡ count k (at eq n seq) + one (has (λ p. eq (number p) n) (lookup k d))
  unfolding fill lookup
  count-fill [] number seq n k h = ground arith
  count-fill ((j, p) ∷ d) number seq n k h = ground (
    arith,
    name_iff j k,
    h.0,
    ap (λ i. lookup i d),
    count-fill d number (append_at eq (number p) j seq) n k h.1,
    count-append_at seq (number p) n j k,
  )

  count_filled :
      (d : Dict ProcessStatus) (number : ProcessStatus → K) (n : K) (k : Name)
      → IsDict d
      → count k (at eq n (fill eq d number [])) ≡ one (has (λ p. eq (number p) n) (lookup k d))
  unfolding at count
  count_filled d number n k h = ground (arith, count-fill d number [] n k h)

-- What the two sequences of an application list, against its rules and those of its processes.
pub record AreExact (a : ApplicationStatus) : Type 0 where
  pub starts :
      (n : ℕ) (k : Name)
      → count k (at nat_beq n a.start_sequence)
        ≡ one
            (a.rules.managed && has (λ p. nat_beq p.rules.start_sequence n) (lookup k a.processes))
  pub stops :
      (n : ℤ) (k : Name)
      → count k (at int_beq n a.stop_sequence)
        ≡ one (has (λ p. int_beq p.rules.stop_sequence n) (lookup k a.processes))

-- With each process once in the application, update_sequences lists every process exactly once in
-- its stop sequence, under the number of its rules, and in its start sequence as well if the
-- application is managed; without that, the start sequence lists none.
pub update_sequences-AreExact :
    (a : ApplicationStatus) → IsDict a.processes → AreExact (update_sequences a)
unfolding update_sequences
update_sequences-AreExact a h = record { starts = starts; stops = stops }
  where
    starts :
        (n : ℕ) (k : Name)
        → count k (at nat_beq n (update_sequences a).start_sequence)
          ≡ one (
              a.rules.managed && has (λ p. nat_beq p.rules.start_sequence n) (lookup k a.processes))
    starts n k = elim (Bool-cases a.rules.managed) [
      | inl e ↦
          rw e (count_filled nat_beq nat_beq_iff a.processes (λ p. p.rules.start_sequence) n k h)
      | inr e ↦ rw e (unfold at count in refl)
    ]

    stops :
        (n : ℤ) (k : Name)
        → count k (at int_beq n (update_sequences a).stop_sequence)
          ≡ one (has (λ p. int_beq p.rules.stop_sequence n) (lookup k a.processes))
    stops n k = count_filled int_beq int_beq_iff a.processes (λ p. p.rules.stop_sequence) n k h
