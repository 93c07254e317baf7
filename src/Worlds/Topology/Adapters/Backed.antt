-- ===== src/Worlds/Topology/Adapters/Backed.antt =====
-- What stands behind an action whose adapter's state is realized.
use dynaxis.Base.{
  ◌≡◌, refl, ap, ap₂, sym, ◌∙◌, String, Bool, true, false, Option, none, some, List, first_of,
  option_map, arith, ℕ, zero, suc, ◌==◌, ℤ, pos, negsuc, ==_iff, ◌&&◌,
}
use dynaxis.Worlds.Topology.Pools.{DesiredTopologyDocument, ObservedTopologyPool, observed_key}
use dynaxis.Worlds.Topology.Reconcile.{has_value}
use dynaxis.Worlds.Topology.Plan.{
  TopologyActuationAction, TopologyActuationActionKind, kind_value, eq_ℤ, action_key,
  plan_topology_actuation,
}
use dynaxis.Worlds.Topology.Requests.{
  TopologyActuationRequestAction, TopologyActuationRequestDocument, judge_request, request_state,
  request_key, requested_actions, TopologyActuationRequestActionState,
  TopologyActuationRequestActionStatus, is_same_action,
}
use dynaxis.Worlds.Topology.Executions.{
  TopologyActuationExecutionItem, TopologyActuationExecutionDocument,
  TopologyActuationExecutionStatusState, item_key, execution_items, is_completed, judge_execution,
  revision_matches, execution_status_state, execution_matches_request, item_state, no_item_state,
  TopologyActuationExecutionActionStatus,
}
use dynaxis.Worlds.Topology.Realizations.{
  is_realized, judge_realization, realization_state, TopologyActuationRealizationState,
}
use dynaxis.Worlds.Topology.Adapters.{
  TopologyActuationAdapterLeaseAction, TopologyActuationAdapterLeaseDocument,
  TopologyActuationAdapterStatusState, TopologyActuationAdapterStatusAction, lease_key,
  leased_actions_of, evaluate_topology_actuation_adapter_status, judge_adapter, adapter_state,
  lease_revision_matches, is_now_realized, lease_matches_action,
}
use dynaxis.Worlds.Topology.Adapters.Lookups.{
  adapter_key, first_of-requests, first_of-executions, first_of-realizations, first_of-adapters,
}

abbrev is_realized_state : TopologyActuationAdapterStatusState → Bool
is_realized_state TopologyActuationAdapterStatusState.realized = true
is_realized_state _ = false

abbrev is_done : TopologyActuationExecutionStatusState → Bool
is_done TopologyActuationExecutionStatusState.completed = true
is_done _ = false

abbrev is_satisfied : TopologyActuationRequestActionState → Bool
is_satisfied TopologyActuationRequestActionState.satisfied = true
is_satisfied _ = false

from_adapter :
    (current found same : Bool) (e : TopologyActuationExecutionStatusState)
    (r : Option TopologyActuationRealizationState)
    → is_realized_state (adapter_state current found same e r) ≡ true
    → is_now_realized r ≡ true
unfolding adapter_state
from_adapter current found same e r h = ground (arith, h)

from_realization :
    (took : Bool) (e : TopologyActuationExecutionStatusState)
    → is_now_realized (some (realization_state took e)) ≡ true
    → is_done e ≡ true
unfolding realization_state
from_realization took e h = ground (arith, h)

from_request :
    (a : Option TopologyActuationAction) (r : TopologyActuationRequestAction)
    → is_satisfied (request_state a r) ≡ true
    → a ≡ none
unfolding request_state
from_request none r h = refl
from_request (some a) r h = ground (arith, h)

from_item :
    (current : Bool) (item : TopologyActuationExecutionItem)
    (q : TopologyActuationRequestActionStatus) (state : TopologyActuationRequestActionState)
    → is_done (item_state current item q state) ≡ true
    → (is_satisfied state ≡ true)
      × (current ≡ true)
      × (is_completed item.state ≡ true)
      × (execution_matches_request item q ≡ true)
unfolding item_state
from_item current item q TopologyActuationRequestActionState.pending h = ground (arith, h)
from_item current item q TopologyActuationRequestActionState.satisfied h = ground (arith, h)
from_item current item q TopologyActuationRequestActionState.superseded h = ground (arith, h)

both_hold : (a b : Bool) → (a && b) ≡ true → (a ≡ true) × (b ≡ true)
both_hold true b h = (refl, h)
both_hold false b h = ground (arith, h)

abbrev kind_at : ℕ → TopologyActuationActionKind
kind_at zero = TopologyActuationActionKind.scale_out_pool
kind_at (suc zero) = TopologyActuationActionKind.scale_in_pool
kind_at (suc (suc zero)) = TopologyActuationActionKind.restore_pool_readiness
kind_at _ = TopologyActuationActionKind.observe_undeclared_pool

kind_at-kind_value : (kind : TopologyActuationActionKind) → kind_at (kind_value kind) ≡ kind
kind_at-kind_value TopologyActuationActionKind.scale_out_pool = refl
kind_at-kind_value TopologyActuationActionKind.scale_in_pool = refl
kind_at-kind_value TopologyActuationActionKind.restore_pool_readiness = refl
kind_at-kind_value TopologyActuationActionKind.observe_undeclared_pool = refl

eq_ℤ_lem : (x y : ℤ) → eq_ℤ x y ≡ true → x ≡ y
eq_ℤ_lem (pos m) (pos n) h = ap pos (ground (arith, h))
eq_ℤ_lem (pos m) (negsuc n) h = ground (arith, h)
eq_ℤ_lem (negsuc m) (pos n) h = ground (arith, h)
eq_ℤ_lem (negsuc m) (negsuc n) h = ap negsuc (ground (arith, h))

-- Two actions that the code takes to be the same are of the same kind and delta.
same_action :
    (kind other : TopologyActuationActionKind) (delta other_delta : ℤ)
    → is_same_action kind delta other other_delta ≡ true
    → (kind ≡ other) × (delta ≡ other_delta)
same_action kind other delta other_delta h =
    let (kinds, deltas) =
      both_hold (kind_value kind == kind_value other) (eq_ℤ delta other_delta) h in
    let values : kind_value kind ≡ kind_value other =
      (==_iff (kind_value kind) (kind_value other)).0 kinds in
    (
      sym (kind_at-kind_value kind) ∙ ap kind_at values ∙ kind_at-kind_value other,
      eq_ℤ_lem delta other_delta deltas,
    )

-- The execution of the current request has completed an action of this kind and delta, and the plan
-- has none for the pool.
pub record IsBacked (current : Bool) (planned : Option TopologyActuationAction)
    (recorded : Option TopologyActuationExecutionItem) (kind : TopologyActuationActionKind)
    (delta : ℤ) : Type 0 where
  pub item : TopologyActuationExecutionItem
  pub found : recorded ≡ some item
  pub completed : is_completed item.state ≡ true
  pub same_kind : item.action.action ≡ kind
  pub same_delta : item.action.replica_delta ≡ delta
  pub up_to_date : current ≡ true
  pub settled : planned ≡ none

judged_done :
    (matches current : Bool) (a : Option TopologyActuationAction)
    (r : TopologyActuationRequestAction) (i : Option TopologyActuationExecutionItem)
    (p : Option ObservedTopologyPool) (l : Option TopologyActuationAdapterLeaseAction)
    → let e = judge_execution current i (judge_request a r) in
      is_realized_state (judge_adapter matches l (some (judge_realization i p e)) e).state ≡ true
      → is_done (execution_status_state current i (judge_request a r)) ≡ true
unfolding judge_adapter judge_realization judge_execution
judged_done matches current a r i p l h =
    let q = judge_request a r in
    let e = execution_status_state current i q in
    let took = is_realized q.requested_action q.requested_replica_delta i p in
    from_realization took e (
      from_adapter matches (has_value l) (lease_matches_action l (judge_execution current i q)) e
        (some (realization_state took e)) h)

no_item_done : (s : TopologyActuationRequestActionState) → ¬ (is_done (no_item_state s) ≡ true)
no_item_done TopologyActuationRequestActionState.pending h = ground (arith, h)
no_item_done TopologyActuationRequestActionState.satisfied h = ground (arith, h)
no_item_done TopologyActuationRequestActionState.superseded h = ground (arith, h)

judge_request-IsBacked :
    (current : Bool) (a : Option TopologyActuationAction) (r : TopologyActuationRequestAction)
    (i : Option TopologyActuationExecutionItem)
    → is_done (execution_status_state current i (judge_request a r)) ≡ true
    → IsBacked current a i r.action r.replica_delta
unfolding execution_status_state judge_request execution_matches_request
judge_request-IsBacked current a r none h = absurd (no_item_done (request_state a r) h)
judge_request-IsBacked current a r (some item) h =
    let (settled, up_to_date, completed, matches) =
      from_item current item (judge_request a r) (request_state a r) h in
    let same =
      same_action item.action.action r.action item.action.replica_delta r.replica_delta matches in
    record {
      same_kind = same.0;
      same_delta = same.1;
      item = item;
      found = refl;
      completed = completed;
      up_to_date = up_to_date;
      settled = from_request a r settled;
    }

module _ (matches current : Bool) (a : Option TopologyActuationAction)
    (asked : Option TopologyActuationRequestAction) (i : Option TopologyActuationExecutionItem)
    (p : Option ObservedTopologyPool) (l : Option TopologyActuationAdapterLeaseAction) where
  abbrev executed : Option TopologyActuationExecutionActionStatus
  executed = option_map (judge_execution current i) (option_map (judge_request a) asked)

  abbrev adapted : Option TopologyActuationAdapterStatusAction
  adapted =
      option_map (judge_adapter matches l (option_map (judge_realization i p) executed)) executed

-- What a status says, where there is one: its state, its kind and its delta.
abbrev shows_realized : Option TopologyActuationAdapterStatusAction → Bool
shows_realized none = false
shows_realized (some s) = is_realized_state s.state

module _ (status : TopologyActuationAdapterStatusAction) where
  abbrev kind_of : Option TopologyActuationAdapterStatusAction → TopologyActuationActionKind
  kind_of none = status.requested_action
  kind_of (some s) = s.requested_action

  abbrev delta_of : Option TopologyActuationAdapterStatusAction → ℤ
  delta_of none = status.requested_replica_delta
  delta_of (some s) = s.requested_replica_delta

  adapted-IsBacked :
      (matches current : Bool) (a : Option TopologyActuationAction)
      (asked : Option TopologyActuationRequestAction) (i : Option TopologyActuationExecutionItem)
      (p : Option ObservedTopologyPool) (l : Option TopologyActuationAdapterLeaseAction)
      → some status ≡ adapted matches current a asked i p l
      → is_realized_state status.state ≡ true
      → IsBacked current a i status.requested_action status.requested_replica_delta
  unfolding judge_adapter judge_execution judge_request
  adapted-IsBacked matches current a none i p l same h = cc
  adapted-IsBacked matches current a (some r) i p l same h =
      let shown = ap shows_realized (sym same) ∙ h in
      let backed =
        judge_request-IsBacked current a r i (judged_done matches current a r i p l shown) in
      record {
        item = backed.item;
        found = backed.found;
        completed = backed.completed;
        same_kind = backed.same_kind ∙ sym (ap kind_of same);
        same_delta = backed.same_delta ∙ sym (ap delta_of same);
        up_to_date = backed.up_to_date;
        settled = backed.settled;
      }

-- An action whose adapter's state is realized was completed, with its kind and its delta, by the
-- execution of the request of the moment, and the plan of the moment has no action left for its pool.
pub evaluate_topology_actuation_adapter_status-IsBacked :
    (lease : Option TopologyActuationAdapterLeaseDocument)
    (execution : Option TopologyActuationExecutionDocument)
    (request : Option TopologyActuationRequestDocument) (desired : Option DesiredTopologyDocument)
    (observed : List ObservedTopologyPool) (key : String)
    (status : TopologyActuationAdapterStatusAction)
    → first_of adapter_key
        (evaluate_topology_actuation_adapter_status lease execution request desired
          observed).actions
        key
      ≡ some status
    → status.state ≡ TopologyActuationAdapterStatusState.realized
    → IsBacked
        (revision_matches execution request)
        (first_of action_key (plan_topology_actuation desired observed).actions key)
        (first_of item_key (execution_items execution) key)
        status.requested_action
        status.requested_replica_delta
evaluate_topology_actuation_adapter_status-IsBacked lease execution request desired observed key
      status found realized =
    let current = revision_matches execution request in
    let matches = lease_revision_matches lease execution in
    let a = first_of action_key (plan_topology_actuation desired observed).actions key in
    let asked = first_of request_key (requested_actions request) key in
    let i = first_of item_key (execution_items execution) key in
    let p = first_of observed_key observed key in
    let l = first_of lease_key (leased_actions_of lease) key in
    let e =
      first_of-executions key desired observed request execution
      ∙ ap (option_map (judge_execution current i))
          (first_of-requests key desired observed request) in
    let all : some status ≡ adapted matches current a asked i p l =
      sym found
      ∙ first_of-adapters key desired observed request execution lease
      ∙ ap₂ (λ r o. option_map (judge_adapter matches l r) o)
          (first_of-realizations key desired observed request execution
            ∙ ap (option_map (judge_realization i p)) e)
          e in
    adapted-IsBacked status matches current a asked i p l all (ap is_realized_state realized)
