-- ===== src/Realtime/Runtime/State.antt =====
-- The state of `WorldRuntime` (core/include/server/core/realtime/runtime.hpp), its configuration and
-- the cells of its grid. Coordinates are integers; the unordered maps are lists of pairs.
pub mod Cells
use dynaxis.Base.{
  ℕ, suc, ◌+◌, ◌-◌, ◌/◌, ◌^◌, Bool, true, false, Option, none, some, List, [], ◌∷◌, ◌==◌,
  if◌then◌else◌, Table, ℤ, pos, negsuc, above, below, leb_ℤ, ltb_ℤ, ◌+ℤ◌,
}

pub record RuntimeConfig : Type 0 where
  pub tick_rate_hz : ℕ
  pub snapshot_refresh_ticks : ℕ
  pub interest_cell_size_mm : ℤ
  pub interest_radius_cells : ℤ
  pub max_interest_recipients_per_tick : ℕ
  pub max_delta_actors_per_tick : ℕ
  pub history_ticks : ℕ

pub record InputCommand : Type 0 where
  pub input_seq : ℕ
  pub move_x_mm : ℤ
  pub move_y_mm : ℤ
  pub yaw_mdeg : ℤ

pub record ActorTransformSample : Type 0 where
  pub actor_id : ℕ
  pub x_mm : ℤ
  pub y_mm : ℤ
  pub yaw_mdeg : ℤ
  pub last_applied_input_seq : ℕ
  pub server_tick : ℕ

pub record StagedInput : Type 0 where
  pub input : InputCommand
  pub present : Bool

pub record ActorState : Type 0 where
  pub actor_id : ℕ
  pub session_id : ℕ
  pub x_mm : ℤ
  pub y_mm : ℤ
  pub yaw_mdeg : ℤ
  pub last_applied_input_seq : ℕ
  pub cell_x : ℤ
  pub cell_y : ℤ
  pub dirty : Bool
  pub history : List ActorTransformSample

-- The set of visible actors is a list in ascending order.
pub record ViewerState : Type 0 where
  pub actor_id : Option ℕ
  pub visible_actor_ids : List ℕ
  pub snapshot_pending : Bool
  pub last_snapshot_tick : ℕ

abbrev pub new_viewer : ViewerState
new_viewer = record {
  actor_id = none;
  visible_actor_ids = [];
  snapshot_pending = false;
  last_snapshot_tick = 0;
}

pub record WorldRuntime : Type 0 where
  pub config : RuntimeConfig
  pub next_actor_id : ℕ
  pub server_tick : ℕ
  pub tick_total : ℕ
  pub snapshot_total : ℕ
  pub delta_total : ℕ
  pub delta_budget_snapshot_total : ℕ
  pub stale_input_reject_total : ℕ
  pub staged_inputs : Table StagedInput
  pub session_to_actor : Table ℕ
  pub actors : Table ActorState
  pub viewers : Table ViewerState
  pub removed_actor_ids : List ℕ
  pub simulation_phase_observer : Bool

unfoldable pub sanitize_config : RuntimeConfig → RuntimeConfig
sanitize_config config = record {
  tick_rate_hz = if config.tick_rate_hz == 0 then 30 else config.tick_rate_hz;
  snapshot_refresh_ticks =
      if config.snapshot_refresh_ticks == 0 then 30 else config.snapshot_refresh_ticks;
  interest_cell_size_mm =
      if leb_ℤ config.interest_cell_size_mm (pos 0)
      then pos 10000
      else config.interest_cell_size_mm;
  interest_radius_cells =
      if ltb_ℤ config.interest_radius_cells (pos 0) then pos 0 else config.interest_radius_cells;
  max_interest_recipients_per_tick =
      if config.max_interest_recipients_per_tick == 0
      then 64
      else config.max_interest_recipients_per_tick;
  max_delta_actors_per_tick =
      if config.max_delta_actors_per_tick == 0 then 32 else config.max_delta_actors_per_tick;
  history_ticks = if config.history_ticks == 0 then 64 else config.history_ticks;
}

unfoldable pub create : RuntimeConfig → WorldRuntime
create config = record {
  config = sanitize_config config;
  next_actor_id = 1;
  server_tick = 0;
  tick_total = 0;
  snapshot_total = 0;
  delta_total = 0;
  delta_budget_snapshot_total = 0;
  stale_input_reject_total = 0;
  staged_inputs = [];
  session_to_actor = [];
  actors = [];
  viewers = [];
  removed_actor_ids = [];
  simulation_phase_observer = false;
}

abbrev pub set_simulation_phase_observer : WorldRuntime → Bool → WorldRuntime
set_simulation_phase_observer w observer = record w { simulation_phase_observer = observer }

-- A sum of two 32-bit integers, which fits 64 bits, cut to 32 bits.
unfoldable pub clamp_i32 : ℤ → ℤ
clamp_i32 value =
    if ltb_ℤ value (negsuc (2 ^ 31 - 1))
    then negsuc (2 ^ 31 - 1)
    else if ltb_ℤ (pos (2 ^ 31 - 1)) value
    then pos (2 ^ 31 - 1)
    else value

-- The negative of a number.
abbrev pub negative : ℕ → ℤ
negative n = if n == 0 then pos 0 else negsuc (n - 1)

-- Division that rounds down; the source computes `-value + size - 1` at 32 bits, where it may
-- overflow, and here it is exact.
unfoldable pub cell_coord : ℤ → ℤ → ℤ
cell_coord value_mm cell_size_mm =
    let size = above cell_size_mm in
    if leb_ℤ cell_size_mm (pos 0)
    then pos 0
    else if leb_ℤ (pos 0) value_mm
    then pos (above value_mm / size)
    else negative ((below value_mm + size - 1) / size)

unfoldable pub update_actor_cells : RuntimeConfig → ActorState → ActorState
update_actor_cells config actor = record actor {
  cell_x = cell_coord actor.x_mm config.interest_cell_size_mm;
  cell_y = cell_coord actor.y_mm config.interest_cell_size_mm;
}

-- What is sent of an actor, with the tick.
abbrev pub sample_of : ℕ → ActorState → ActorTransformSample
sample_of server_tick actor = record {
  actor_id = actor.actor_id;
  x_mm = actor.x_mm;
  y_mm = actor.y_mm;
  yaw_mdeg = actor.yaw_mdeg;
  last_applied_input_seq = actor.last_applied_input_seq;
  server_tick = server_tick;
}
