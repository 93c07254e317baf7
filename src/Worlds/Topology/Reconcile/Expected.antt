-- ===== src/Worlds/Topology/Reconcile/Expected.antt =====
-- What a reconciliation has to say of each pool key, described without the code's functions, its
-- loops and its indices.
use Prim.Native.Nat.{compare, Ordering}
use dynaxis.Base.{
  ◌≡◌, refl, ap, ap₂, ◌∙◌, append-nil, ℕ, zero, suc, String, Bool, true, false, Option, none, some,
  List, [], ◌∷◌, ◌++◌, if◌then◌else◌, str_eq, eq_iff, find, erase, emplace, values, index_from,
  first_of, keep_if, keep_if-append, find-erase, find-emplace, IsKeyed, index_from-IsKeyed, arith,
  map, two_ways,
}
use dynaxis.Worlds.Topology.Pools.{
  DesiredTopologyPool, DesiredTopologyDocument, ObservedTopologyPool, observed_key,
}
use dynaxis.Worlds.Topology.Reconcile.{
  TopologyPoolStatus, ReconciledTopologyPool, desired_key, reconciled_key, observed_index,
  observed_status, reconcile_pool, reconcile_declared, erase_declared, undeclared_pool,
  reconcile_undeclared, desired_pools, reconcile_topology,
}
use dynaxis.Worlds.Topology.Reconcile.Lookups.{
  left_over, find-erase_declared, erase_declared-IsKeyed, find-observed_index,
}

abbrev pub observed_instances : Option ObservedTopologyPool → ℕ
observed_instances none = 0
observed_instances (some o) = o.instances

abbrev pub observed_ready : Option ObservedTopologyPool → ℕ
observed_ready none = 0
observed_ready (some o) = o.ready_instances

-- The status of a pool that is wanted, by the instances, those ready, and the replicas wanted.
abbrev pub expected_status : ℕ → ℕ → ℕ → TopologyPoolStatus
expected_status zero ready replicas = TopologyPoolStatus.missing_observed_pool
expected_status (suc n) zero replicas = TopologyPoolStatus.no_ready_instances
expected_status (suc n) (suc r) replicas = elim (compare (suc n) replicas) [
  | Ordering.lt ↦ TopologyPoolStatus.under_replicated
  | Ordering.eq ↦ TopologyPoolStatus.aligned
  | Ordering.gt ↦ TopologyPoolStatus.over_replicated
]

abbrev pub expected : Option ObservedTopologyPool → DesiredTopologyPool → ReconciledTopologyPool
expected o d = record {
  world_id = d.world_id;
  shard = d.shard;
  desired_replicas = d.replicas;
  observed_instances = observed_instances o;
  ready_instances = observed_ready o;
  status = expected_status (observed_instances o) (observed_ready o) d.replicas;
}

abbrev pub unwanted : ObservedTopologyPool → ReconciledTopologyPool
unwanted o = record {
  world_id = o.world_id;
  shard = o.shard;
  desired_replicas = 0;
  observed_instances = o.instances;
  ready_instances = o.ready_instances;
  status = TopologyPoolStatus.undeclared_observed_pool;
}

-- All that is to be returned for a key: the first pool wanted is set against the pool observed, any
-- further one of the key is missing, and a pool observed that none wants is undeclared.
abbrev pub expected_all :
    List DesiredTopologyPool → Option ObservedTopologyPool → List ReconciledTopologyPool
expected_all [] none = []
expected_all [] (some o) = unwanted o ∷ []
expected_all (d ∷ ds) o = expected o d ∷ map (expected none) ds

observed_status-expected_status :
    (n r replicas : ℕ) (o : ObservedTopologyPool)
    → o.instances ≡ n
    → o.ready_instances ≡ r
    → observed_status o replicas ≡ expected_status n r replicas
unfolding observed_status
observed_status-expected_status zero r replicas o same ready = ground (arith, same)
observed_status-expected_status (suc n) zero replicas o same ready = ground (arith, same, ready)
observed_status-expected_status (suc n) (suc r) replicas o same ready = ground (arith, same, ready)

pub reconcile_pool-expected :
    (o : Option ObservedTopologyPool) (d : DesiredTopologyPool) → reconcile_pool o d ≡ expected o d
unfolding reconcile_pool
reconcile_pool-expected none d = refl
reconcile_pool-expected (some o) d =
    ap (λ s. record (expected (some o) d) { status = s })
      (observed_status-expected_status o.instances o.ready_instances d.replicas o refl refl)

-- No key stands twice in a map.
abbrev IsUnique : List (String × ObservedTopologyPool) → Type 0
IsUnique [] = Unit
IsUnique (e ∷ es) = (find es e.0 ≡ none) × IsUnique es

emplace-IsUnique :
    (m : List (String × ObservedTopologyPool)) (own : String) (o : ObservedTopologyPool)
    → IsUnique m
    → IsUnique (emplace m own o)
emplace-IsUnique [] own o once = (refl, tt)
emplace-IsUnique (e ∷ es) own o once =
    two_ways IsUnique (str_eq e.0 own) (e ∷ es) (e ∷ emplace es own o) (λ _. once)
      (λ other. (
        ground (arith, other, once.0, find-emplace es own e.0 o, eq_iff e.0 own, eq_iff own e.0),
        emplace-IsUnique es own o once.1,
      ))

index_from-IsUnique :
    (m : List (String × ObservedTopologyPool)) (os : List ObservedTopologyPool)
    → IsUnique m
    → IsUnique (index_from observed_key m os)
index_from-IsUnique m [] once = once
index_from-IsUnique m (o ∷ os) once =
    let own = observed_key o in
    index_from-IsUnique (emplace m own o) os (emplace-IsUnique m own o once)

erase-IsUnique :
    (m : List (String × ObservedTopologyPool)) (own : String) → IsUnique m → IsUnique (erase m own)
erase-IsUnique [] own once = tt
erase-IsUnique (e ∷ es) own once =
    two_ways IsUnique (str_eq e.0 own) (erase es own) (e ∷ erase es own)
      (λ _. erase-IsUnique es own once.1)
      (λ _. (ground (arith, once.0, find-erase es own e.0), erase-IsUnique es own once.1))

erase_declared-IsUnique :
    (index : List (String × ObservedTopologyPool)) (ds : List DesiredTopologyPool)
    → IsUnique index
    → IsUnique (erase_declared index ds)
unfolding erase_declared
erase_declared-IsUnique index [] once = once
erase_declared-IsUnique index (d ∷ ds) once =
    let own = desired_key d in
    erase_declared-IsUnique (erase index own) ds (erase-IsUnique index own once)

module _ (key : String) where
  abbrev pub wanted_here : List DesiredTopologyPool → List DesiredTopologyPool
  wanted_here = keep_if (λ d. str_eq (desired_key d) key)

  abbrev pub returned_here : List ReconciledTopologyPool → List ReconciledTopologyPool
  returned_here = keep_if (λ p. str_eq (reconciled_key p) key)

  -- What the loop over the pools wanted returns for the key.
  abbrev matched :
      List DesiredTopologyPool → Option ObservedTopologyPool → List ReconciledTopologyPool
  matched [] o = []
  matched (d ∷ ds) o = expected o d ∷ map (expected none) ds

  matched-none : (ds : List DesiredTopologyPool) → matched ds none ≡ map (expected none) ds
  matched-none [] = refl
  matched-none (d ∷ ds) = refl

  returned_declared :
      (index : List (String × ObservedTopologyPool)) (ds : List DesiredTopologyPool)
      → returned_here (reconcile_declared index ds) ≡ matched (wanted_here ds) (find index key)
  unfolding reconcile_declared
  returned_declared index [] = refl
  returned_declared index (d ∷ ds) =
      let own = desired_key d in
      ground (
        arith,
        returned_declared (erase index own) ds,
        find-erase index own key,
        eq_iff own key,
        reconcile_pool-expected (find index own) d,
        matched-none (wanted_here ds),
      )

  abbrev undeclared_here : Option ObservedTopologyPool → List ReconciledTopologyPool
  undeclared_here none = []
  undeclared_here (some o) = unwanted o ∷ []

  returned_undeclared :
      (m : List (String × ObservedTopologyPool))
      → IsKeyed observed_key m
      → IsUnique m
      → returned_here (reconcile_undeclared (values m)) ≡ undeclared_here (find m key)
  unfolding reconcile_undeclared undeclared_pool
  returned_undeclared [] keyed once = refl
  returned_undeclared (e ∷ es) keyed once =
      ground (arith, returned_undeclared es keyed.1 once.1, keyed.0, once.0, eq_iff e.0 key)

  join_if :
      (b : Bool) (d : DesiredTopologyPool) (ds : List DesiredTopologyPool)
      (first : Option DesiredTopologyPool) (o : Option ObservedTopologyPool)
      → matched ds o ++ undeclared_here (left_over first o) ≡ expected_all ds o
      → matched (if b then d ∷ ds else ds) o
          ++ undeclared_here (left_over (if b then some d else first) o)
        ≡ expected_all (if b then d ∷ ds else ds) o
  join_if false d ds first o same = same
  join_if true d ds first o same = append-nil (matched (d ∷ ds) o)

  join_parts :
      (ds : List DesiredTopologyPool) (o : Option ObservedTopologyPool)
      → matched (wanted_here ds) o ++ undeclared_here (left_over (first_of desired_key ds key) o)
        ≡ expected_all (wanted_here ds) o
  join_parts [] none = refl
  join_parts [] (some o) = refl
  join_parts (d ∷ ds) o =
      join_if (str_eq (desired_key d) key) d (wanted_here ds) (first_of desired_key ds key) o
        (join_parts ds o)

-- All that `reconcile_topology` returns for a key, in its order: the first pool wanted of that key
-- with the counts of the first pool observed of it, and any further one wanted as missing; where
-- none is wanted, the pool observed as undeclared, once; and nothing for a key that is in neither
-- list. A pool wanted is missing where no instance of it is observed; where some are and none is
-- ready, it has none ready; and else it is under its replicas, aligned or over them, as the number
-- observed is below the replicas, equal to them or above.
pub returned_here-reconcile_topology :
    (desired : Option DesiredTopologyDocument) (observed : List ObservedTopologyPool) (key : String)
    → returned_here key (reconcile_topology desired observed).pools
      ≡ expected_all (wanted_here key (desired_pools desired)) (first_of observed_key observed key)
unfolding reconcile_topology
returned_here-reconcile_topology desired observed key =
    let ds = desired_pools desired in
    let index = observed_index observed in
    let left = erase_declared index ds in
    let here = first_of observed_key observed key in
    let keyed = erase_declared-IsKeyed index ds (index_from-IsKeyed observed_key [] observed tt) in
    let once = erase_declared-IsUnique index ds (index_from-IsUnique [] observed tt) in
    let found = find-observed_index observed key in
    keep_if-append (λ p. str_eq (reconciled_key p) key) (reconcile_declared index ds)
      (reconcile_undeclared (values left))
    ∙ ap₂ (◌++◌) (returned_declared key index ds ∙ ap (matched key (wanted_here key ds)) found) (
        returned_undeclared key left keyed once
        ∙ ap (undeclared_here key)
            (find-erase_declared index ds key ∙ ap (left_over (first_of desired_key ds key)) found))
    ∙ join_parts key ds here
