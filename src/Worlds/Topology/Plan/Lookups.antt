-- ===== src/Worlds/Topology/Plan/Lookups.antt =====
-- What the plan has for each pool key.
use dynaxis.Base.{
  ◌≡◌, refl, ap, ap₂, ◌∙◌, String, Bool, true, false, Option, none, some, List, [], ◌∷◌, ◌++◌,
  if◌then◌else◌, str_eq, eq_iff, erase, values, first_of, first_of-append, or_else, option_map,
  arith, find, ◌>>=◌, Option-cases, inl, inr,
}
use dynaxis.Worlds.Topology.Pools.{
  DesiredTopologyPool, DesiredTopologyDocument, ObservedTopologyPool, observed_key,
}
use dynaxis.Worlds.Topology.Reconcile.{
  TopologyPoolStatus, ReconciledTopologyPool, desired_key, reconciled_key, observed_index,
  reconcile_pool, reconcile_declared, erase_declared, undeclared_pool, reconcile_undeclared,
  desired_pools, reconcile_topology,
}
use dynaxis.Worlds.Topology.Reconcile.Lookups.{
  reconciled_from, left_over, first_of-left, first_of-declared, first_of-reconcile_declared,
  reconcile_pool-key,
}
use dynaxis.Worlds.Topology.Plan.{
  TopologyActuationAction, action_key, plan_pool, plan_pools, add_action, action_for,
  plan_topology_actuation,
}

-- No pool key is wanted twice.
abbrev pub AreDistinct : List DesiredTopologyPool → Type 0
AreDistinct [] = Unit
AreDistinct (d ∷ ds) = (first_of desired_key ds (desired_key d) ≡ none) × AreDistinct ds

-- The action for a key, from what is wanted and what is observed of it.
abbrev pub planned_from :
    Option DesiredTopologyPool → Option ObservedTopologyPool → Option TopologyActuationAction
planned_from desired observed = reconciled_from desired observed >>= plan_pool

-- The first action of a list that begins with what one pool gives.
abbrev first_planned :
    Bool
    → Option TopologyActuationAction
    → Option TopologyActuationAction
    → Option TopologyActuationAction
first_planned here own rest = if here then or_else own rest else rest

first_of-action_for :
    (status : TopologyPoolStatus) (p : ReconciledTopologyPool) (rest : List TopologyActuationAction)
    (key : String)
    → first_of action_key (add_action (action_for status p) rest) key
      ≡ first_planned
          (str_eq (reconciled_key p) key)
          (action_for status p)
          (first_of action_key rest key)
unfolding action_for
first_of-action_for TopologyPoolStatus.aligned p rest key = ground arith
first_of-action_for TopologyPoolStatus.missing_observed_pool p rest key = ground arith
first_of-action_for TopologyPoolStatus.under_replicated p rest key = ground arith
first_of-action_for TopologyPoolStatus.over_replicated p rest key = ground arith
first_of-action_for TopologyPoolStatus.no_ready_instances p rest key = ground arith
first_of-action_for TopologyPoolStatus.undeclared_observed_pool p rest key = ground arith

plan_pools-append :
    (ps qs : List ReconciledTopologyPool) → plan_pools (ps ++ qs) ≡ plan_pools ps ++ plan_pools qs
unfolding plan_pools
plan_pools-append [] qs = refl
plan_pools-append (p ∷ ps) qs = elim (Option-cases (plan_pool p)) [
  | inl aligned ↦ ground (arith, aligned, plan_pools-append ps qs)
  | inr (a, acts) ↦ ground (arith, acts, plan_pools-append ps qs)
]

join_plan :
    (here : Bool) (p : ReconciledTopologyPool) (rest : Option TopologyActuationAction)
    (later : Option ReconciledTopologyPool)
    → (here ≡ true → later ≡ none)
    → rest ≡ (later >>= plan_pool)
    → first_planned here (plan_pool p) rest ≡ ((if here then some p else later) >>= plan_pool)
join_plan false p rest later absent same = same
join_plan true p rest later absent same = elim (Option-cases (plan_pool p)) [
  | inl aligned ↦ ground (arith, aligned, absent refl, same)
  | inr (a, acts) ↦ ground (arith, acts)
]

first_of-plan_declared :
    (index : List (String × ObservedTopologyPool)) (ds : List DesiredTopologyPool) (key : String)
    → AreDistinct ds
    → first_of action_key (plan_pools (reconcile_declared index ds)) key
      ≡ (first_of reconciled_key (reconcile_declared index ds) key >>= plan_pool)
unfolding reconcile_declared plan_pools
first_of-plan_declared index [] key h = refl
first_of-plan_declared index (d ∷ ds) key h =
    let own = desired_key d in
    let p = reconcile_pool (find index own) d in
    let later = reconcile_declared (erase index own) ds in
    let absent : str_eq (reconciled_key p) key ≡ true → first_of reconciled_key later key ≡ none =
      λ here. ground (
        arith,
        here,
        h.0,
        eq_iff own key,
        reconcile_pool-key (find index own) d,
        first_of-reconcile_declared (erase index own) ds key,
      ) in
    first_of-action_for p.status p (plan_pools later) key
    ∙ join_plan (str_eq (reconciled_key p) key) p (first_of action_key (plan_pools later) key)
        (first_of reconciled_key later key) absent
        (first_of-plan_declared (erase index own) ds key h.1)

first_of-plan_undeclared :
    (pools : List ObservedTopologyPool) (key : String)
    → first_of action_key (plan_pools (reconcile_undeclared pools)) key
      ≡ (first_of reconciled_key (reconcile_undeclared pools) key >>= plan_pool)
unfolding reconcile_undeclared plan_pools undeclared_pool action_for
first_of-plan_undeclared [] key = refl
first_of-plan_undeclared (o ∷ pools) key = ground (arith, first_of-plan_undeclared pools key)

join_actions :
    (d : Option DesiredTopologyPool) (o : Option ObservedTopologyPool)
    → or_else
        (option_map (reconcile_pool o) d >>= plan_pool)
        (option_map undeclared_pool (left_over d o) >>= plan_pool)
      ≡ planned_from d o
unfolding undeclared_pool action_for
join_actions none none = refl
join_actions none (some o) = refl
join_actions (some d) o = elim (Option-cases (plan_pool (reconcile_pool o d))) [
  | inl aligned ↦ ground (arith, aligned)
  | inr (a, acts) ↦ ground (arith, acts)
]

-- When no pool is wanted twice, the first action of a plan for a key is the one that the pool wanted
-- and the pool observed of that key call for, and there is none exactly where they call for none.
pub first_of-plan_topology_actuation :
    (desired : Option DesiredTopologyDocument) (observed : List ObservedTopologyPool) (key : String)
    → AreDistinct (desired_pools desired)
    → first_of action_key (plan_topology_actuation desired observed).actions key
      ≡ planned_from
          (first_of desired_key (desired_pools desired) key)
          (first_of observed_key observed key)
unfolding plan_topology_actuation reconcile_topology
first_of-plan_topology_actuation desired observed key h =
    let ds = desired_pools desired in
    let index = observed_index observed in
    let declared = reconcile_declared index ds in
    let left = reconcile_undeclared (values (erase_declared index ds)) in
    let d = first_of desired_key ds key in
    let o = first_of observed_key observed key in
    ap (λ actions. first_of action_key actions key) (plan_pools-append declared left)
    ∙ first_of-append action_key (plan_pools declared) (plan_pools left) key
    ∙ ap₂ or_else
        (first_of-plan_declared index ds key h
          ∙ ap (λ p. p >>= plan_pool) (first_of-declared ds observed key))
        (first_of-plan_undeclared (values (erase_declared index ds)) key
          ∙ ap (λ p. p >>= plan_pool) (first_of-left ds observed key))
    ∙ join_actions d o
