-- ===== src/Realtime/Runtime/Inputs.antt =====
-- `stage_input`, `remove_session` and the queries of `WorldRuntime`.
use dynaxis.Base.{
  ℕ, ◌+◌, Bool, true, false, ◌&&◌, Option, none, some, List, [], ◌∷◌, ltb, ◌==◌, if◌then◌else◌, u32,
  u64, Table, find_id, put_id, erase_id, pos,
}
use dynaxis.Realtime.Runtime.State.{
  InputCommand, StagedInput, ActorState, ViewerState, new_viewer, WorldRuntime, RuntimeConfig,
  update_actor_cells,
}

pub data StageInputDisposition : Type 0 where
  accepted rejected_stale : StageInputDisposition

pub record StageInputResult : Type 0 where
  pub disposition : StageInputDisposition
  pub target_server_tick : ℕ
  pub actor_id : Option ℕ

-- A new actor at the origin, which no update has shown yet.
abbrev pub new_actor : RuntimeConfig → ℕ → ℕ → ActorState
new_actor config actor_id session_id =
    record (update_actor_cells config (record {
      actor_id = actor_id;
      session_id = session_id;
      x_mm = pos 0;
      y_mm = pos 0;
      yaw_mdeg = pos 0;
      last_applied_input_seq = 0;
      cell_x = pos 0;
      cell_y = pos 0;
      dirty = false;
      history = [];
    })) { dirty = true }

-- `emplace`, which keeps what is there.
abbrev pub emplace_found : Table ActorState → ℕ → ActorState → Option ActorState → Table ActorState
emplace_found actors key actor none = put_id actors key actor
emplace_found actors key actor (some there) = actors

abbrev pub viewer_or_new : Option ViewerState → ViewerState
viewer_or_new none = new_viewer
viewer_or_new (some viewer) = viewer

-- `ensure_actor_for_session` behind its search.
abbrev pub ensure_found : WorldRuntime → ℕ → Option ℕ → ℕ × WorldRuntime
ensure_found w session_id (some actor_id) = (actor_id, w)
ensure_found w session_id none =
    let actor_id = w.next_actor_id in
    let viewer = viewer_or_new (find_id w.viewers session_id) in
    (
      actor_id,
      record w {
        next_actor_id = u32 (actor_id + 1);
        session_to_actor = put_id w.session_to_actor session_id actor_id;
        actors =
            emplace_found w.actors actor_id (new_actor w.config actor_id session_id)
              (find_id w.actors actor_id);
        viewers =
            put_id w.viewers session_id
              (record viewer { actor_id = some actor_id; snapshot_pending = true });
      },
    )

unfoldable pub ensure_actor_for_session : WorldRuntime → ℕ → ℕ × WorldRuntime
ensure_actor_for_session w session_id =
    ensure_found w session_id (find_id w.session_to_actor session_id)

-- Whether an input is older than the one that waits.
abbrev pub is_stale : Option StagedInput → InputCommand → Bool
is_stale none input = false
is_stale (some staged) input = staged.present && ltb input.input_seq staged.input.input_seq

unfoldable pub stage_input : WorldRuntime → ℕ → InputCommand → StageInputResult × WorldRuntime
stage_input w session_id input =
    let (actor_id, w1) = ensure_actor_for_session w session_id in
    let target = u32 (w1.server_tick + 1) in
    if is_stale (find_id w1.staged_inputs session_id) input
    then (
      record {
        disposition = StageInputDisposition.rejected_stale;
        target_server_tick = target;
        actor_id = some actor_id;
      },
      record w1 { stale_input_reject_total = u64 (w1.stale_input_reject_total + 1) },
    )
    else (
      record {
        disposition = StageInputDisposition.accepted;
        target_server_tick = target;
        actor_id = some actor_id;
      },
      record w1 {
        staged_inputs =
            put_id w1.staged_inputs session_id (record { input = input; present = true });
      },
    )

-- `insert` of a set in ascending order.
unfoldable pub insert_id : ℕ → List ℕ → List ℕ
insert_id n [] = n ∷ []
insert_id n (x ∷ xs) =
    let rest = insert_id n xs in if ltb n x then n ∷ x ∷ xs else if n == x then x ∷ xs else x ∷ rest

-- `remove_session` behind its search.
abbrev pub remove_found : WorldRuntime → ℕ → Option ℕ → WorldRuntime
remove_found w session_id none = w
remove_found w session_id (some actor_id) = record w {
  removed_actor_ids = insert_id actor_id w.removed_actor_ids;
  actors = erase_id w.actors actor_id;
  session_to_actor = erase_id w.session_to_actor session_id;
}

unfoldable pub remove_session : WorldRuntime → ℕ → WorldRuntime
remove_session w session_id =
    let left = record w {
      staged_inputs = erase_id w.staged_inputs session_id;
      viewers = erase_id w.viewers session_id;
    } in
    remove_found left session_id (find_id left.session_to_actor session_id)

abbrev pub actor_id_for_session : WorldRuntime → ℕ → Option ℕ
actor_id_for_session w session_id = find_id w.session_to_actor session_id
