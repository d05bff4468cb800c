-- ===== src/Strategy/Bounds.antt =====
-- supvisors/strategy.py: the loads are known for every instance that runs, and the instance that is
-- chosen has room.
pub mod Room
use supvisors.Prelude.{
  ℕ, ◌+◌, ◌≡◌, ◌⊎◌, refl, sym, inl, inr, subst, ap, ◌∙◌, Bool, true, false, ◌&&◌, ◌||◌, List, [],
  ◌∷◌, Option, none, some, Name, ◌==◌, leb, all, name_iff, name_self, Bool-cases, Option-cases,
  some_eq, In, here, there, arith, if◌then◌else◌,
}
use supvisors.Prelude.Dict.{Dict, lookup, insert, keys, values, lookup-insert}
use supvisors.Prelude.Dict.Values.{IsDict, insert-IsDict}
use supvisors.Prelude.NameSet.{contains}
use supvisors.Process.{Supervisor}
use supvisors.Mapper.{SupvisorsMapper, machine_of}
use supvisors.Instances.Status.{InstanceStatus}
use supvisors.Context.{Context}
use supvisors.Strategy.Loads.{
  LoadDetails, LoadingValidity, increment, zeros, sum_requests, get_node_load_request_map, get_load,
  sum_loads, get_nodes_load, is_loading_valid, get_loading_from,
}
use supvisors.Strategy.Starting.{load_details}

abbrev pub is_some {ℓ} : {A : Type ℓ} → Option A → Bool
is_some none = false
is_some (some a) = true

pub is_some-eq {ℓ} : {A : Type ℓ} (o : Option A) → is_some o ≡ true → (a : A) × (o ≡ some a)
is_some-eq none h = absurd (ground arith)
is_some-eq (some a) h = (a, refl)

pub is_some-of {ℓ} : {A : Type ℓ} (o : Option A) (a : A) → o ≡ some a → is_some o ≡ true
is_some-of o a e = rw e refl

-- The machine of an instance is one of the mapper's nodes.
abbrev pub on_node : SupvisorsMapper → Option Name → Bool
on_node m none = false
on_node m (some machine) = is_some (lookup machine m.nodes)

-- What the load details rest on: the requests are for instances on known nodes, and the nodes
-- have known instances.
pub record IsMapped (m : SupvisorsMapper) (c : Context) (requests : Dict ℕ) : Type 0 where
  pub requests_known : all (λ k. on_node m (machine_of m k)) (keys requests) ≡ true
  pub nodes_known : all (all (λ k. is_some (lookup k c.instances))) (values m.nodes) ≡ true

zeros-keys :
    (nodes : Dict (List Name)) (k : Name)
    → is_some (lookup k (zeros nodes)) ≡ is_some (lookup k nodes)
unfolding lookup zeros
zeros-keys [] k = refl
zeros-keys ((j, ks) ∷ d) k = ground (arith, zeros-keys d k)

insert-keys :
    (k j : Name) (n : ℕ) (loads : Dict ℕ)
    → is_some (lookup k loads) ≡ true
    → is_some (lookup j (insert k n loads)) ≡ is_some (lookup j loads)
insert-keys k j n loads h =
    ground (arith, lookup-insert k j n loads, name_iff k j, ap (λ i. lookup i loads), h)

node-known :
    (m : SupvisorsMapper) (loads : Dict ℕ) (o : Option Name)
    → ((k : Name) → is_some (lookup k loads) ≡ is_some (lookup k m.nodes))
    → on_node m o ≡ true
    → (machine : Name) × (o ≡ some machine) × (is_some (lookup machine loads) ≡ true)
node-known m loads none h q = absurd (ground arith)
node-known m loads (some machine) h q = (machine, refl, h machine ∙ q)

pub sum_requests-total :
    (requests : Dict ℕ) (m : SupvisorsMapper) (loads : Dict ℕ)
    → ((k : Name) → is_some (lookup k loads) ≡ is_some (lookup k m.nodes))
    → all (λ k. on_node m (machine_of m k)) (keys requests) ≡ true
    → is_some (sum_requests m requests loads) ≡ true
unfolding sum_requests keys
sum_requests-total [] m loads h q = refl
sum_requests-total ((k, n) ∷ requests) m loads h q =
    added (node-known m loads (machine_of m k) h (ground (arith, q)))
      (λ l g. sum_requests-total requests m l g (ground (arith, q)))
  where
    added :
        (machine : Name) × (machine_of m k ≡ some machine) × (is_some (lookup machine loads) ≡ true)
        → ((l : Dict ℕ)
            → ((j : Name) → is_some (lookup j l) ≡ is_some (lookup j m.nodes))
            → is_some (sum_requests m requests l) ≡ true)
        → is_some (sum_requests m ((k, n) ∷ requests) loads) ≡ true
    added (machine, e, known) rest =
        let (old, f) = is_some-eq (lookup machine loads) known in
        rw (e, f, sum_requests, increment)
          (rest (insert machine (old + n) loads)
            (λ j. insert-keys machine j (old + n) loads known ∙ h j))

sum_loads-total :
    (sup : Supervisor) (c : Context) (ks : List Name)
    → all (λ k. is_some (lookup k c.instances)) ks ≡ true
    → is_some (sum_loads sup c ks) ≡ true
unfolding sum_loads get_load
sum_loads-total sup c [] h = refl
sum_loads-total sup c (k ∷ ks) h = ground (arith, sum_loads-total sup c ks (ground arith))

pub get_nodes_load-total :
    (sup : Supervisor) (c : Context) (nodes : Dict (List Name))
    → all (all (λ k. is_some (lookup k c.instances))) (values nodes) ≡ true
    → is_some (get_nodes_load sup c nodes) ≡ true
unfolding get_nodes_load values
get_nodes_load-total sup c [] h = refl
get_nodes_load-total sup c ((machine, ks) ∷ nodes) h = ground (
  arith,
  sum_loads-total sup c ks (ground arith),
  get_nodes_load-total sup c nodes (ground arith),
)

-- get_supvisors_instance builds its load details.
pub load_details-total :
    (sup : Supervisor) (m : SupvisorsMapper) (c : Context) (requests : Dict ℕ)
    → IsMapped m c requests
    → is_some (load_details sup m c requests) ≡ true
unfolding load_details get_node_load_request_map
load_details-total sup m c requests h = ground (
  arith,
  sum_requests-total requests m (zeros m.nodes) (zeros-keys m.nodes) h.requests_known,
  get_nodes_load-total sup c m.nodes h.nodes_known,
)

-- The report on candidates whose loads are all known.
pub get_loading-total :
    (sup : Supervisor) (m : SupvisorsMapper) (c : Context) (ks : List Name) (n : ℕ)
    (details : LoadDetails) (d : Dict LoadingValidity)
    → all (λ k. is_some (is_loading_valid sup m c k n details)) ks ≡ true
    → is_some (get_loading_from sup m c ks n details d) ≡ true
unfolding get_loading_from
get_loading-total sup m c [] n details d h = refl
get_loading-total sup m c (k ∷ ks) n details d h =
    let (v, e) = is_some-eq (is_loading_valid sup m c k n details) (ground arith) in
    rw (e, get_loading_from) (get_loading-total sup m c ks n details (insert k v d) (ground arith))

-- It has the loads of the candidates, and nothing else.
pub lookup-get_loading :
    (sup : Supervisor) (m : SupvisorsMapper) (c : Context) (ks : List Name) (n : ℕ)
    (details : LoadDetails) (d d' : Dict LoadingValidity)
    → get_loading_from sup m c ks n details d ≡ some d'
    → (k : Name)
    → lookup k d' ≡ (if contains k ks then is_loading_valid sup m c k n details else lookup k d)
unfolding get_loading_from contains
lookup-get_loading sup m c [] n details d d' e k = ap (lookup k) (some_eq (sym e))
lookup-get_loading sup m c (j ∷ ks) n details d d' e k =
    elim (Option-cases (is_loading_valid sup m c j n details)) [
      | inl q ↦ absurd (ground (arith, rw (q, get_loading_from) at e))
      | inr (v, q) ↦
          let f =
            lookup-get_loading sup m c ks n details (insert j v d) d'
              (rw (q, get_loading_from) at e) k in
          ground (
            arith,
            f,
            lookup-insert j k v d,
            name_iff j k,
            q,
            ap (λ i. is_loading_valid sup m c i n details),
          )
    ]

pub get_loading-IsDict :
    (sup : Supervisor) (m : SupvisorsMapper) (c : Context) (ks : List Name) (n : ℕ)
    (details : LoadDetails) (d d' : Dict LoadingValidity)
    → get_loading_from sup m c ks n details d ≡ some d'
    → IsDict d
    → IsDict d'
unfolding get_loading_from
get_loading-IsDict sup m c [] n details d d' e u = subst IsDict (some_eq e) u
get_loading-IsDict sup m c (j ∷ ks) n details d d' e u =
    elim (Option-cases (is_loading_valid sup m c j n details)) [
      | inl q ↦ absurd (ground (arith, rw (q, get_loading_from) at e))
      | inr (v, q) ↦
          get_loading-IsDict sup m c ks n details (insert j v d) d' (rw (q, get_loading_from) at e)
            (insert-IsDict j v d u)
    ]
