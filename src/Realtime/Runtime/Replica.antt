-- ===== src/Realtime/Runtime/Replica.antt =====
-- The other end of `WorldRuntime::tick`: what a client shows that follows the updates it is sent. A
-- snapshot replaces everything, a delta overwrites the actors it lists and drops the removed ones.
pub mod Samples
pub mod Updates
pub mod Actors
pub mod Delivery
pub mod World
pub mod Leaves
pub mod Ticked
pub mod Calls
pub mod Runs
use dynaxis.Base.{
  ℕ, ◌≡◌, Bool, true, false, ◌||◌, Option, none, some, List, [], ◌∷◌, ◌==◌, if◌then◌else◌, contains,
  Table, find_id, option_map, ℤ,
}
use dynaxis.Realtime.Runtime.State.{ActorState, ViewerState, ActorTransformSample}
use dynaxis.Realtime.Runtime.Views.{ReplicationKind, ReplicationUpdate}

-- What is shown of one actor.
pub record Shown : Type 0 where
  pub x_mm : ℤ
  pub y_mm : ℤ
  pub yaw_mdeg : ℤ
  pub last_applied_input_seq : ℕ

abbrev pub shown_of : ActorState → Shown
shown_of a = record {
  x_mm = a.x_mm;
  y_mm = a.y_mm;
  yaw_mdeg = a.yaw_mdeg;
  last_applied_input_seq = a.last_applied_input_seq;
}

abbrev pub shown_sample : ActorTransformSample → Shown
shown_sample s = record {
  x_mm = s.x_mm;
  y_mm = s.y_mm;
  yaw_mdeg = s.yaw_mdeg;
  last_applied_input_seq = s.last_applied_input_seq;
}

abbrev pub Replica : Type 0
Replica = ℕ → Option Shown

abbrev pub nothing_shown : Replica
nothing_shown = λ id. none

unfoldable pub find_sample : List ActorTransformSample → ℕ → Option Shown
find_sample [] id = none
find_sample (x ∷ xs) id =
    let rest = find_sample xs id in if x.actor_id == id then some (shown_sample x) else rest

-- A listed sample, or what was shown before unless it was removed.
abbrev pub overlay : Option Shown → Bool → Option Shown → Option Shown
overlay (some s) removed before = some s
overlay none removed before = if removed then none else before

unfoldable pub apply_delta : List ActorTransformSample → List ℕ → Replica → Replica
apply_delta listed removed r id = overlay (find_sample listed id) (contains removed id) (r id)

abbrev pub apply_kind : ReplicationKind → ReplicationUpdate → Replica → Replica
apply_kind ReplicationKind.snapshot u r = find_sample u.actors
apply_kind ReplicationKind.delta u r = apply_delta u.actors u.removed_actor_ids r

unfoldable pub apply_update : ReplicationUpdate → Replica → Replica
apply_update u r = apply_kind u.kind u r

abbrev pub apply_sent : Option ReplicationUpdate → Replica → Replica
apply_sent none r = r
apply_sent (some u) r = apply_update u r

-- The updates for one session, in the order they were sent.
unfoldable pub deliver : List ReplicationUpdate → ℕ → Replica → Replica
deliver [] session r = r
deliver (u ∷ us) session r =
    deliver us session (if u.session_id == session then apply_update u r else r)

-- A replica shows exactly the actors that the viewer sees, each as it is.
abbrev pub Exact : Table ActorState → ViewerState → Replica → Type 0
Exact actors v r =
    (id : ℕ)
    → r id
      ≡ (if contains v.visible_actor_ids id then option_map shown_of (find_id actors id) else none)

-- A replica shows nothing that the viewer does not see, and the actors seen that are not dirty as
-- they are.
pub record InSync (actors : Table ActorState) (v : ViewerState) (r : Replica) : Type 0 where
  pub hidden : (id : ℕ) → contains v.visible_actor_ids id ≡ false → r id ≡ none
  pub shown :
      (id : ℕ) (a : ActorState)
      → contains v.visible_actor_ids id ≡ true
      → find_id actors id ≡ some a
      → a.dirty ≡ false
      → r id ≡ some (shown_of a)

-- Every actor bears the number it is found by.
abbrev pub IsNamed : Table ActorState → Type 0
IsNamed actors = (id : ℕ) (a : ActorState) → find_id actors id ≡ some a → a.actor_id ≡ id
