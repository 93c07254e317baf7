-- ===== src/Realtime/Runtime/Replica/Calls.antt =====
-- The calls of a world, what they do to it and its clients, and that each keeps the order of both.
use dynaxis.Base.{
  ℕ, suc, ◌+◌, ◌^◌, ◌<◌, ◌≡◌, refl, ap, sym, subst, true, Option, none, some, List, [], ◌∷◌, u32,
  Table, find_id, put_id, erase_id, IsUnique, two_ways,
}
use dynaxis.Realtime.Runtime.State.{
  RuntimeConfig, InputCommand, ActorState, ViewerState, WorldRuntime, create, update_actor_cells,
}
use dynaxis.Realtime.Runtime.Inputs.{
  new_actor, ensure_found, ensure_actor_for_session, emplace_found, viewer_or_new, stage_input,
  remove_session, remove_found, StageInputResult, is_stale,
}
use dynaxis.Realtime.Runtime.Ticks.{advance, tick}
use dynaxis.Realtime.Runtime.Replica.{Replica, nothing_shown, deliver}
use dynaxis.Realtime.Runtime.Replica.Actors.{advance-Related}
use dynaxis.Realtime.Runtime.Replica.Ticked.{moved_lem, after_lem}
use dynaxis.Realtime.Runtime.Replica.World.{IsWorld, unseen, next_free, join_lem}
use dynaxis.Realtime.Runtime.Replica.Leaves.{closed_for, leave_unknown, leave_known}

pub data Call : Type 0 where
  stage : ℕ → InputCommand → Call
  leave : ℕ → Call
  next_tick : Call

abbrev pub Both : Type 0
Both = WorldRuntime × (ℕ → Replica)

unfoldable pub step : Both → Call → Both
step (w, clients) (Call.stage session input) = ((stage_input w session input).1, clients)
step (w, clients) (Call.leave session) = (remove_session w session, closed_for session clients)
step (w, clients) Call.next_tick =
    let (result, after) = tick w in (after, λ s. deliver result.outbound s (clients s))

-- A new world after calls, the newest first, with what the clients then show.
unfoldable pub run : RuntimeConfig → List Call → Both
run config [] = (create config, λ s. nothing_shown)
run config (call ∷ calls) = step (run config calls) call

abbrev pub Holds : Both → Type 0
Holds (w, clients) =
    IsWorld w.next_actor_id w.actors w.viewers w.session_to_actor w.removed_actor_ids clients

pub create-Holds : (config : RuntimeConfig) → Holds (create config, λ s. nothing_shown)
unfolding create IsUnique find_id
create-Holds config = record {
  named = λ id a e. cc;
  below = λ id a e. cc;
  gone = λ id e. cc;
  plays = λ s id e. cc;
  looks = λ s v e. cc;
  unique = tt;
  sync = λ s v e. cc;
  apart = λ s e id. refl;
}

new_viewer-unseen : (o : Option ViewerState) → o ≡ none → (viewer_or_new o).visible_actor_ids ≡ []
new_viewer-unseen none h = refl
new_viewer-unseen (some v) h = cc

new_actor-actor_id :
    (config : RuntimeConfig) (id session : ℕ) → (new_actor config id session).actor_id ≡ id
unfolding update_actor_cells
new_actor-actor_id config id session = refl

new_actor-session_id :
    (config : RuntimeConfig) (id session : ℕ) → (new_actor config id session).session_id ≡ session
unfolding update_actor_cells
new_actor-session_id config id session = refl

ensure_found-Holds :
    (w : WorldRuntime) (clients : ℕ → Replica) (session : ℕ) (o : Option ℕ)
    → suc w.next_actor_id < 2 ^ 32
    → find_id w.session_to_actor session ≡ o
    → Holds (w, clients)
    → Holds ((ensure_found w session o).1, clients)
ensure_found-Holds w clients session (some id) fits found h = h
ensure_found-Holds w clients session none fits found h =
    let actor = new_actor w.config w.next_actor_id session in
    let viewer = record (viewer_or_new (find_id w.viewers session)) {
      actor_id = some w.next_actor_id;
      snapshot_pending = true;
    } in
    subst
      (λ (m : Table ActorState).
        IsWorld (u32 (w.next_actor_id + 1)) m (put_id w.viewers session viewer)
          (put_id w.session_to_actor session w.next_actor_id) w.removed_actor_ids clients)
      (ap (emplace_found w.actors w.next_actor_id actor) (sym (next_free h)))
      (join_lem h session actor viewer found (new_actor-actor_id w.config w.next_actor_id session)
        (new_actor-session_id w.config w.next_actor_id session) refl refl
        (new_viewer-unseen (find_id w.viewers session) (unseen h session found)) fits)

pub stage_input-Holds :
    (w : WorldRuntime) (clients : ℕ → Replica) (session : ℕ) (input : InputCommand)
    → suc w.next_actor_id < 2 ^ 32
    → Holds (w, clients)
    → Holds ((stage_input w session input).1, clients)
unfolding stage_input ensure_actor_for_session
stage_input-Holds w clients session input fits h =
    let found = find_id w.session_to_actor session in
    let kept = ensure_found-Holds w clients session found fits refl h in
    two_ways (λ (p : StageInputResult × WorldRuntime). Holds (p.1, clients))
      (is_stale (find_id (ensure_found w session found).1.staged_inputs session) input) _ _
      (λ e. kept) (λ e. kept)

-- The world once the session's input and viewer are gone, before its actor is.
abbrev pub left : WorldRuntime → ℕ → WorldRuntime
left w session = record w {
  staged_inputs = erase_id w.staged_inputs session;
  viewers = erase_id w.viewers session;
}

remove_found-Holds :
    (w : WorldRuntime) (clients : ℕ → Replica) (session : ℕ) (o : Option ℕ)
    → find_id w.session_to_actor session ≡ o
    → Holds (w, clients)
    → Holds (remove_found (left w session) session o, closed_for session clients)
remove_found-Holds w clients session none e h = leave_unknown h session e
remove_found-Holds w clients session (some id) e h = leave_known h session id e

pub remove_session-Holds :
    (w : WorldRuntime) (clients : ℕ → Replica) (session : ℕ)
    → Holds (w, clients)
    → Holds (remove_session w session, closed_for session clients)
unfolding remove_session
remove_session-Holds w clients session h =
    remove_found-Holds w clients session (find_id w.session_to_actor session) refl h

pub advance-Holds :
    (w : WorldRuntime) (clients : ℕ → Replica) → Holds (w, clients) → Holds (advance w, clients)
unfolding advance
advance-Holds w clients h = moved_lem (advance-Related w) h

pub tick-Holds :
    (w : WorldRuntime) (clients : ℕ → Replica)
    → Holds (w, clients)
    → Holds (step (w, clients) Call.next_tick)
unfolding step tick
tick-Holds w clients h = after_lem (advance w) (advance-Holds w clients h)
