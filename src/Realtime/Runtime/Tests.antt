-- ===== src/Realtime/Runtime/Tests.antt =====
-- The theorems about the world runtime at concrete worlds.
use dynaxis.Base.{
  ◌≡◌, refl, true, false, some, List, [], ◌∷◌, ◌++◌, arith, pos, negsuc, find_id, put_id, erase_id,
  map_values, ◌-ℤ◌, ◌+ℤ◌, ◌+◌, ◌≤◌,
}
use dynaxis.Realtime.Runtime.State.{
  RuntimeConfig, InputCommand, ActorState, ViewerState, cell_coord, create, sanitize_config,
  sample_of, clamp_i32, update_actor_cells, ActorTransformSample,
}
use dynaxis.Realtime.Runtime.Inputs.{
  stage_input, ensure_actor_for_session, remove_session, insert_id,
}
use dynaxis.Realtime.Runtime.Views.{
  desired_visible, replicate_all, replicate_viewer, replicate_to, is_due, settle, near_ids,
  limit_ids, removed_for_viewer, add_removed, samples, same_ids,
}
use dynaxis.Realtime.Runtime.Ticks.{
  tick, advance, apply_inputs, step_actor, record_history, trim, rewind_at_or_before,
}
use dynaxis.Realtime.Runtime.Replica.{Exact}
use dynaxis.Realtime.Runtime.Replica.Calls.{Call, run, step}
use dynaxis.Realtime.Runtime.Replica.Runs.{replica-Exact}
use dynaxis.Realtime.Runtime.Rewind.{ticks, rewind_at_or_before-exact}
use dynaxis.Realtime.Runtime.Visible.{IsView, desired_visible-IsView}

abbrev config : RuntimeConfig
config = record {
  tick_rate_hz = 30;
  snapshot_refresh_ticks = 30;
  interest_cell_size_mm = pos 100;
  interest_radius_cells = pos 1;
  max_interest_recipients_per_tick = 2;
  max_delta_actors_per_tick = 8;
  history_ticks = 3;
}

abbrev walk : InputCommand
walk = record { input_seq = 1; move_x_mm = pos 250; move_y_mm = pos 0; yaw_mdeg = pos 90 }

abbrev back : InputCommand
back = record { input_seq = 2; move_x_mm = negsuc 9; move_y_mm = pos 5; yaw_mdeg = pos 0 }

-- Two sessions join and tick; then one moves on.
abbrev calls : List Call
calls = Call.stage 7 back ∷ Call.next_tick ∷ Call.stage 9 walk ∷ Call.stage 7 walk ∷ []

abbrev viewer : ViewerState
viewer = record {
  actor_id = some 2;
  visible_actor_ids = 1 ∷ 2 ∷ [];
  snapshot_pending = false;
  last_snapshot_tick = 1;
}

abbrev earlier : List Call
earlier = Call.stage 9 walk ∷ Call.stage 7 walk ∷ []

abbrev later : List Call
later = Call.leave 9 ∷ Call.next_tick ∷ Call.stage 7 back ∷ []

abbrev first_sample : ActorTransformSample
first_sample = record {
  actor_id = 1;
  x_mm = pos 250;
  y_mm = pos 0;
  yaw_mdeg = pos 90;
  last_applied_input_seq = 1;
  server_tick = 1;
}

abbrev moved : ActorState
moved = record {
  actor_id = 1;
  session_id = 7;
  x_mm = pos 250;
  y_mm = pos 0;
  yaw_mdeg = pos 90;
  last_applied_input_seq = 1;
  cell_x = pos 2;
  cell_y = pos 0;
  dirty = false;
  history = first_sample ∷ [];
}

abbrev second_sample : ActorTransformSample
second_sample = record first_sample {
  x_mm = pos 240;
  y_mm = pos 5;
  yaw_mdeg = pos 0;
  last_applied_input_seq = 2;
  server_tick = 2;
}

abbrev moved_on : ActorState
moved_on = record moved {
  x_mm = pos 240;
  y_mm = pos 5;
  yaw_mdeg = pos 0;
  last_applied_input_seq = 2;
  history = first_sample ∷ second_sample ∷ [];
}

room : 1 + ticks later ≤ (sanitize_config config).history_ticks
unfolding sanitize_config
room = omega arith

viewer_found : find_id (run config (Call.next_tick ∷ calls)).0.viewers 9 ≡ some viewer
unfolding run step create sanitize_config stage_input ensure_actor_for_session remove_session tick
    advance apply_inputs step_actor update_actor_cells cell_coord clamp_i32 record_history trim
    replicate_all replicate_viewer replicate_to is_due settle desired_visible near_ids limit_ids
    insert_id removed_for_viewer add_removed samples same_ids find_id put_id erase_id map_values
    ◌-ℤ◌ ◌+ℤ◌
viewer_found = refl

moved_found : find_id (run config (Call.next_tick ∷ earlier)).0.actors 1 ≡ some moved
unfolding run step create sanitize_config stage_input ensure_actor_for_session remove_session tick
    advance apply_inputs step_actor update_actor_cells cell_coord clamp_i32 record_history trim
    replicate_all replicate_viewer replicate_to is_due settle desired_visible near_ids limit_ids
    insert_id removed_for_viewer add_removed samples same_ids find_id put_id erase_id map_values
    ◌-ℤ◌ ◌+ℤ◌
moved_found = refl

moved_on_found : find_id (run config (later ++ Call.next_tick ∷ earlier)).0.actors 1 ≡ some moved_on
unfolding run step create sanitize_config stage_input ensure_actor_for_session remove_session tick
    advance apply_inputs step_actor update_actor_cells cell_coord clamp_i32 record_history trim
    replicate_all replicate_viewer replicate_to is_due settle desired_visible near_ids limit_ids
    insert_id removed_for_viewer add_removed samples same_ids find_id put_id erase_id map_values
    ◌-ℤ◌ ◌+ℤ◌
moved_on_found = refl

replica-Exact_example :
    Exact
      (run config (Call.next_tick ∷ calls)).0.actors
      viewer
      ((run config (Call.next_tick ∷ calls)).1 9)
replica-Exact_example = replica-Exact config calls 9 viewer (omega arith) viewer_found

rewind_at_or_before-exact_example :
    rewind_at_or_before
      (run config (later ++ Call.next_tick ∷ earlier)).0
      (record { actor_id = 1; server_tick = (run config (Call.next_tick ∷ earlier)).0.server_tick })
    ≡ some (record {
      sample = sample_of (run config (Call.next_tick ∷ earlier)).0.server_tick moved;
      exact_tick = true;
    })
rewind_at_or_before-exact_example =
    rewind_at_or_before-exact config earlier later 1 moved moved_on (omega arith) room moved_found
      moved_on_found

desired_visible-IsView_example :
    IsView config moved
      ((2, moved) ∷ (1, moved) ∷ [])
      (desired_visible config moved ((2, moved) ∷ (1, moved) ∷ []))
desired_visible-IsView_example =
    desired_visible-IsView config moved ((2, moved) ∷ (1, moved) ∷ []) (omega arith)
