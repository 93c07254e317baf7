-- ===== src/Worlds/Topology/Reconcile/Lookups.antt =====
-- What the plan has for each pool key, described without the loops and the indices.
use dynaxis.Base.{
  ◌≡◌, refl, ap, ap₂, ◌∙◌, String, Bool, true, false, Option, none, some, List, [], ◌∷◌,
  if◌then◌else◌, str_eq, eq_iff, find, erase, values, first_of, first_of-values, first_of-append,
  find-erase, find-index_from, IsKeyed, erase-IsKeyed, index_from-IsKeyed, or_else, option_map,
  arith,
}
use dynaxis.Worlds.Topology.Pools.{
  DesiredTopologyPool, DesiredTopologyDocument, ObservedTopologyPool, observed_key,
}
use dynaxis.Worlds.Topology.Reconcile.{
  ReconciledTopologyPool, desired_key, reconciled_key, observed_index, reconcile_pool,
  reconcile_declared, erase_declared, undeclared_pool, reconcile_undeclared, desired_pools,
  reconcile_topology,
}

-- The pool that the code reconciles for a key, from what is wanted and what is observed of it.
abbrev pub reconciled_from :
    Option DesiredTopologyPool → Option ObservedTopologyPool → Option ReconciledTopologyPool
reconciled_from none none = none
reconciled_from none (some observed) = some (undeclared_pool observed)
reconciled_from (some desired) observed = some (reconcile_pool observed desired)

-- What the loop over the pools wanted leaves.
abbrev pub left_over :
    Option DesiredTopologyPool → Option ObservedTopologyPool → Option ObservedTopologyPool
left_over none o = o
left_over (some d) o = none

pub reconcile_pool-key :
    (o : Option ObservedTopologyPool) (d : DesiredTopologyPool)
    → reconciled_key (reconcile_pool o d) ≡ desired_key d
unfolding reconcile_pool
reconcile_pool-key none d = refl
reconcile_pool-key (some o) d = refl

pub first_of-reconcile_declared :
    (index : List (String × ObservedTopologyPool)) (ds : List DesiredTopologyPool) (key : String)
    → first_of reconciled_key (reconcile_declared index ds) key
      ≡ option_map (reconcile_pool (find index key)) (first_of desired_key ds key)
unfolding reconcile_declared
first_of-reconcile_declared index [] key = refl
first_of-reconcile_declared index (d ∷ ds) key =
    let own = desired_key d in
    ground (
      arith,
      reconcile_pool-key (find index own) d,
      eq_iff own key,
      first_of-reconcile_declared (erase index own) ds key,
      find-erase index own key,
    )

left_over_if :
    (b : Bool) (d : DesiredTopologyPool) (first : Option DesiredTopologyPool)
    (o : Option ObservedTopologyPool)
    → left_over first (if b then none else o) ≡ left_over (if b then some d else first) o
left_over_if false d first o = refl
left_over_if true d none o = refl
left_over_if true d (some first) o = refl

pub find-erase_declared :
    (index : List (String × ObservedTopologyPool)) (ds : List DesiredTopologyPool) (key : String)
    → find (erase_declared index ds) key ≡ left_over (first_of desired_key ds key) (find index key)
unfolding erase_declared
find-erase_declared index [] key = refl
find-erase_declared index (d ∷ ds) key =
    let own = desired_key d in
    let first = first_of desired_key ds key in
    find-erase_declared (erase index own) ds key
    ∙ ap (left_over first) (find-erase index own key)
    ∙ left_over_if (str_eq own key) d first (find index key)

first_of-reconcile_undeclared :
    (pools : List ObservedTopologyPool) (key : String)
    → first_of reconciled_key (reconcile_undeclared pools) key
      ≡ option_map undeclared_pool (first_of observed_key pools key)
unfolding reconcile_undeclared undeclared_pool
first_of-reconcile_undeclared [] key = refl
first_of-reconcile_undeclared (p ∷ pools) key =
    ground (arith, first_of-reconcile_undeclared pools key)

pub erase_declared-IsKeyed :
    (index : List (String × ObservedTopologyPool)) (ds : List DesiredTopologyPool)
    → IsKeyed observed_key index
    → IsKeyed observed_key (erase_declared index ds)
unfolding erase_declared
erase_declared-IsKeyed index [] h = h
erase_declared-IsKeyed index (d ∷ ds) h =
    let own = desired_key d in
    erase_declared-IsKeyed (erase index own) ds (erase-IsKeyed observed_key index own h)

pub find-observed_index :
    (observed : List ObservedTopologyPool) (key : String)
    → find (observed_index observed) key ≡ first_of observed_key observed key
find-observed_index observed key = find-index_from observed_key [] observed key

join_parts :
    (d : Option DesiredTopologyPool) (o : Option ObservedTopologyPool)
    → or_else (option_map (reconcile_pool o) d) (option_map undeclared_pool (left_over d o))
      ≡ reconciled_from d o
join_parts none none = refl
join_parts none (some o) = refl
join_parts (some d) o = refl

-- The two parts of the pools reconciled, by key.
pub first_of-left :
    (ds : List DesiredTopologyPool) (observed : List ObservedTopologyPool) (key : String)
    → let left = values (erase_declared (observed_index observed) ds) in
      first_of reconciled_key (reconcile_undeclared left) key
      ≡ option_map undeclared_pool
          (left_over (first_of desired_key ds key) (first_of observed_key observed key))
first_of-left ds observed key =
    let index = observed_index observed in
    let left = erase_declared index ds in
    let keyed = index_from-IsKeyed observed_key [] observed tt in
    first_of-reconcile_undeclared (values left) key
    ∙ ap (option_map undeclared_pool) (
        first_of-values observed_key left key (erase_declared-IsKeyed index ds keyed)
        ∙ find-erase_declared index ds key
        ∙ ap (left_over (first_of desired_key ds key)) (find-observed_index observed key))

pub first_of-declared :
    (ds : List DesiredTopologyPool) (observed : List ObservedTopologyPool) (key : String)
    → first_of reconciled_key (reconcile_declared (observed_index observed) ds) key
      ≡ option_map
          (reconcile_pool (first_of observed_key observed key))
          (first_of desired_key ds key)
first_of-declared ds observed key =
    first_of-reconcile_declared (observed_index observed) ds key
    ∙ ap (λ o. option_map (reconcile_pool o) (first_of desired_key ds key))
        (find-observed_index observed key)

-- The first pool that `reconcile_topology` returns for a key is the pool wanted of that key set
-- against the pool observed, the first of each that has the key; a pool observed that no pool wanted
-- names is undeclared, and a key that is in neither list has no pool.
pub first_of-reconcile_topology :
    (desired : Option DesiredTopologyDocument) (observed : List ObservedTopologyPool) (key : String)
    → first_of reconciled_key (reconcile_topology desired observed).pools key
      ≡ reconciled_from
          (first_of desired_key (desired_pools desired) key)
          (first_of observed_key observed key)
unfolding reconcile_topology
first_of-reconcile_topology desired observed key =
    let ds = desired_pools desired in
    let index = observed_index observed in
    let left = reconcile_undeclared (values (erase_declared index ds)) in
    first_of-append reconciled_key (reconcile_declared index ds) left key
    ∙ ap₂ or_else (first_of-declared ds observed key) (first_of-left ds observed key)
    ∙ join_parts (first_of desired_key ds key) (first_of observed_key observed key)
