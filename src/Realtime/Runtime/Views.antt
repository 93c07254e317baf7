-- ===== src/Realtime/Runtime/Views.antt =====
-- The third phase of `WorldRuntime::tick`: what each viewer is told.
use dynaxis.Base.{
  ℕ, Bool, true, false, not, ◌&&◌, ◌||◌, Option, none, some, List, [], ◌∷◌, ◌++◌, ltb, leb, ◌==◌,
  if◌then◌else◌, sub32, is_empty, length, contains, keep_if, Table, find_id, pos, leb_ℤ, ◌-ℤ◌, abs,
}
use dynaxis.Realtime.Runtime.State.{
  RuntimeConfig, ActorState, ViewerState, WorldRuntime, ActorTransformSample, sample_of,
}
use dynaxis.Realtime.Runtime.Inputs.{insert_id}

pub data ReplicationKind : Type 0 where
  snapshot delta : ReplicationKind

pub record ReplicationUpdate : Type 0 where
  pub session_id : ℕ
  pub kind : ReplicationKind
  pub server_tick : ℕ
  pub self_actor_id : ℕ
  pub actors : List ActorTransformSample
  pub removed_actor_ids : List ℕ

abbrev pub is_near : RuntimeConfig → ActorState → ActorState → Bool
is_near config viewer actor =
    leb_ℤ (pos (abs (actor.cell_x -ℤ viewer.cell_x))) config.interest_radius_cells
    && leb_ℤ (pos (abs (actor.cell_y -ℤ viewer.cell_y))) config.interest_radius_cells

-- The loop over all actors that gathers the near ones.
unfoldable pub near_ids : RuntimeConfig → ActorState → List ℕ → Table ActorState → List ℕ
near_ids config viewer ids [] = ids
near_ids config viewer ids (e ∷ es) =
    near_ids config viewer
      (if e.0 == viewer.actor_id
        then ids
        else if is_near config viewer e.1
        then insert_id e.0 ids
        else ids)
      es

-- The loop that fills the limited set, in ascending order.
unfoldable pub limit_ids : ℕ → List ℕ → List ℕ → List ℕ
limit_ids max limited [] = limited
limit_ids max limited (i ∷ is) =
    let rest = limit_ids max (insert_id i limited) is in
    if leb max (length limited) then limited else rest

unfoldable pub desired_visible : RuntimeConfig → ActorState → Table ActorState → List ℕ
desired_visible config viewer actors =
    let near = near_ids config viewer (insert_id viewer.actor_id []) actors in
    let max = config.max_interest_recipients_per_tick in
    if ltb max (length near) then limit_ids max (insert_id viewer.actor_id []) near else near

-- The second loop over removed actors, which adds those that are not listed yet.
unfoldable pub add_removed : List ℕ → List ℕ → List ℕ → List ℕ
add_removed visible listed [] = listed
add_removed visible listed (i ∷ is) =
    add_removed visible
      (if contains visible i && not (contains listed i) then listed ++ (i ∷ []) else listed) is

unfoldable pub removed_for_viewer : List ℕ → List ℕ → List ℕ → List ℕ
removed_for_viewer visible desired removed =
    add_removed visible (keep_if (λ i. not (contains desired i)) visible) removed

abbrev pub found_sample : ℕ → Bool → Option ActorState → List ActorTransformSample
found_sample server_tick all none = []
found_sample server_tick all (some actor) =
    if all || actor.dirty then sample_of server_tick actor ∷ [] else []

-- The samples of the given actors that exist: of all of them, or of the dirty ones.
unfoldable pub samples : ℕ → Bool → Table ActorState → List ℕ → List ActorTransformSample
samples server_tick all actors [] = []
samples server_tick all actors (i ∷ is) =
    found_sample server_tick all (find_id actors i) ++ samples server_tick all actors is

-- `==` of two sets.
unfoldable pub same_ids : List ℕ → List ℕ → Bool
same_ids [] [] = true
same_ids [] (y ∷ ys) = false
same_ids (x ∷ xs) [] = false
same_ids (x ∷ xs) (y ∷ ys) = x == y && same_ids xs ys

-- What the loop body leaves for one viewer.
pub record Outcome : Type 0 where
  pub update : Option ReplicationUpdate
  pub viewer : ViewerState
  pub snapshot : Bool
  pub delta : Bool
  pub over_budget : Bool

abbrev pub unchanged : ViewerState → Outcome
unchanged viewer = record {
  update = none;
  viewer = viewer;
  snapshot = false;
  delta = false;
  over_budget = false;
}

-- A snapshot is due before the budget of a delta is looked at.
unfoldable pub is_due : WorldRuntime → List ℕ → ViewerState → Bool
is_due w desired viewer =
    viewer.snapshot_pending
    || (not (same_ids desired viewer.visible_actor_ids)
        || (viewer.last_snapshot_tick == 0
            || leb w.config.snapshot_refresh_ticks (sub32 w.server_tick viewer.last_snapshot_tick)))

-- The end of the loop body: the snapshot, the delta or nothing.
unfoldable pub settle :
    ℕ → Bool → ReplicationUpdate → ReplicationUpdate → ViewerState → Bool → Bool → Outcome
settle server_tick over_budget full partial seen snapshot_pending changed =
    if snapshot_pending
    then record {
      update = some full;
      viewer = record seen { snapshot_pending = false; last_snapshot_tick = server_tick };
      snapshot = true;
      delta = false;
      over_budget = over_budget;
    }
    else if changed
    then record (unchanged seen) { update = some partial; delta = true }
    else unchanged seen

-- The loop body for a viewer whose actor exists.
unfoldable pub replicate_to : WorldRuntime → ℕ → ViewerState → ActorState → Outcome
replicate_to w session_id viewer actor =
    let desired = desired_visible w.config actor w.actors in
    let removed = removed_for_viewer viewer.visible_actor_ids desired w.removed_actor_ids in
    let dirty_samples = samples w.server_tick false w.actors desired in
    let due = is_due w desired viewer in
    let over_budget = not due && ltb w.config.max_delta_actors_per_tick (length dirty_samples) in
    let seen = record viewer { visible_actor_ids = desired } in
    let full : ReplicationUpdate = record {
      session_id = session_id;
      kind = ReplicationKind.snapshot;
      server_tick = w.server_tick;
      self_actor_id = actor.actor_id;
      actors = samples w.server_tick true w.actors desired;
      removed_actor_ids = removed;
    } in
    let partial : ReplicationUpdate = record {
      session_id = session_id;
      kind = ReplicationKind.delta;
      server_tick = w.server_tick;
      self_actor_id = actor.actor_id;
      actors = dirty_samples;
      removed_actor_ids = removed;
    } in
    settle w.server_tick over_budget full partial seen (due || over_budget)
      (not (is_empty dirty_samples) || not (is_empty removed))

abbrev pub replicate_found : WorldRuntime → ℕ → ViewerState → Option ActorState → Outcome
replicate_found w session_id viewer none = unchanged viewer
replicate_found w session_id viewer (some actor) = replicate_to w session_id viewer actor

abbrev pub viewer_actor : Table ActorState → Option ℕ → Option ActorState
viewer_actor actors none = none
viewer_actor actors (some actor_id) = find_id actors actor_id

-- The loop body.
unfoldable pub replicate_viewer : WorldRuntime → ℕ → ViewerState → Outcome
replicate_viewer w session_id viewer =
    replicate_found w session_id viewer (viewer_actor w.actors viewer.actor_id)

abbrev pub add_update : Option ReplicationUpdate → List ReplicationUpdate → List ReplicationUpdate
add_update none updates = updates
add_update (some update) updates = update ∷ updates

-- The loop: what is sent, the viewers, and the outcomes that the counters count.
unfoldable pub replicate_all :
    WorldRuntime → Table ViewerState → List ReplicationUpdate × Table ViewerState × List Outcome
replicate_all w [] = ([], [], [])
replicate_all w (e ∷ es) =
    let outcome = replicate_viewer w e.0 e.1 in
    let (updates, viewers, outcomes) = replicate_all w es in
    (add_update outcome.update updates, (e.0, outcome.viewer) ∷ viewers, outcome ∷ outcomes)
