-- ===== src/Realtime/Runtime/Replica/Ticked.antt =====
-- What holds of a world and its clients is kept by `WorldRuntime::tick`, after which the clients are
-- exact.
use dynaxis.Base.{
  ℕ, ◌≡◌, refl, ap, ◌∙◌, sym, subst, Bool, true, false, Option, none, some, List, [], arith, Table,
  find_id, option_map, map_values, find_id-map_values, Option-cases, inl, inr,
}
use dynaxis.Realtime.Runtime.State.{ActorState, ViewerState, WorldRuntime}
use dynaxis.Realtime.Runtime.Views.{
  settle, replicate_to, replicate_found, replicate_viewer, replicate_all, viewer_actor,
  ReplicationUpdate,
}
use dynaxis.Realtime.Runtime.Ticks.{clean}
use dynaxis.Realtime.Runtime.Replica.{Replica, apply_sent, deliver, Exact, InSync}
use dynaxis.Realtime.Runtime.Replica.Updates.{replicate_to-Exact}
use dynaxis.Realtime.Runtime.Replica.Actors.{
  Follows, Related, Related-some, Related-kept, Related-none,
}
use dynaxis.Realtime.Runtime.Replica.Delivery.{
  told, replicate_all-viewers, replicate_all-IsUnique, deliver-replicate_all,
}
use dynaxis.Realtime.Runtime.Replica.World.{IsWorld}

-- Actors that inputs have moved.
pub moved_lem :
    {next : ℕ} {actors after : Table ActorState} {viewers : Table ViewerState} {sessions : Table ℕ}
    {removed : List ℕ} {clients : ℕ → Replica}
    → ((id : ℕ) → Related Follows (find_id actors id) (find_id after id))
    → IsWorld next actors viewers sessions removed clients
    → IsWorld next after viewers sessions removed clients
moved_lem {actors} {after} related w = record {
  named = λ id b e. let (a, was, f) = before id b e in f.actor_id ∙ w.named id a was;
  below = λ id b e. let (a, was, f) = before id b e in w.below id a was;
  gone = λ id e.
      let (none_there, less) = w.gone id e in
      (
        Related-none Follows (find_id after id)
            (subst (λ o. Related Follows o (find_id after id)) none_there (related id)),
        less,
      );
  plays = λ s id e.
      let (a, was, its) = w.plays s id e in
      let (b, now, f) =
        Related-kept Follows a (find_id after id)
          (subst (λ o. Related Follows o (find_id after id)) was (related id)) in
      (b, now, f.session_id ∙ its);
  looks = w.looks;
  unique = w.unique;
  sync = λ s v e. record {
    hidden = (w.sync s v e).hidden;
    shown = λ id b seen there is_clean.
        let (a, was, f) = before id b there in
        let (was_clean, same) = f.clean is_clean in
        (w.sync s v e).shown id a seen was was_clean ∙ ap some (sym same);
  };
  apart = w.apart;
}
  where
    before :
        (id : ℕ) (b : ActorState)
        → find_id after id ≡ some b
        → (a : ActorState) × (find_id actors id ≡ some a) × Follows a b
    before id b e =
        Related-some Follows (find_id actors id) b
          (subst (Related Follows (find_id actors id)) e (related id))

settle-actor_id :
    (t : ℕ) (over : Bool) (full partial : ReplicationUpdate) (seen : ViewerState)
    (due changed : Bool)
    → (settle t over full partial seen due changed).viewer.actor_id ≡ seen.actor_id
unfolding settle
settle-actor_id t over full partial seen true changed = refl
settle-actor_id t over full partial seen false true = refl
settle-actor_id t over full partial seen false false = refl

replicate_to-actor_id :
    (w : WorldRuntime) (session : ℕ) (v : ViewerState) (a : ActorState)
    → (replicate_to w session v a).viewer.actor_id ≡ v.actor_id
unfolding replicate_to
replicate_to-actor_id w session v a = settle-actor_id _ _ _ _ _ _ _

replicate_viewer-actor_id :
    (w : WorldRuntime) (session : ℕ) (v : ViewerState)
    → (replicate_viewer w session v).viewer.actor_id ≡ v.actor_id
unfolding replicate_viewer
replicate_viewer-actor_id w session v = found (viewer_actor w.actors v.actor_id)
  where
    found : (o : Option ActorState) → (replicate_found w session v o).viewer.actor_id ≡ v.actor_id
    found none = refl
    found (some a) = replicate_to-actor_id w session v a

-- An exact replica is in step.
Exact-InSync :
    (actors : Table ActorState) (v : ViewerState) (r : Replica)
    → Exact actors v r
    → InSync actors v r
Exact-InSync actors v r exact = record {
  hidden = λ id h. ground (arith, exact id, h);
  shown = λ id a h there is_clean. ground (arith, exact id, h, there);
}

Exact-clean :
    (actors : Table ActorState) (v : ViewerState) (r : Replica)
    → Exact actors v r
    → Exact (map_values clean actors) v r
Exact-clean actors v r exact id = ground (arith, exact id, find_id-map_values clean actors id)

module _ (w : WorldRuntime) {next : ℕ} {clients : ℕ → Replica}
    (h : IsWorld next w.actors w.viewers w.session_to_actor w.removed_actor_ids clients) where
  -- One viewer's replica once its update is applied.
  viewer-Exact :
      (s : ℕ) (v : ViewerState)
      → find_id w.viewers s ≡ some v
      → Exact w.actors
          (replicate_viewer w s v).viewer
          (apply_sent (replicate_viewer w s v).update (clients s))
  unfolding replicate_viewer
  viewer-Exact s v e =
      let (id, sees, known) = h.looks s v e in
      let (a, there, its) = h.plays s id known in
      let named : a.actor_id ≡ id = h.named id a there in
      subst
        (λ o.
          Exact w.actors (replicate_found w s v o).viewer
            (apply_sent (replicate_found w s v o).update (clients s)))
        (sym (ap (viewer_actor w.actors) sees ∙ there))
        (replicate_to-Exact w s v a (clients s) h.named
          (subst (λ i. find_id w.actors i ≡ some a) (sym named) there) (h.sync s v e)
          (λ i g. (h.gone i g).0))

  abbrev after_viewers : Table ViewerState
  after_viewers = (replicate_all w w.viewers).1

  abbrev after_clients : ℕ → Replica
  after_clients = λ s. deliver (replicate_all w w.viewers).0 s (clients s)

  -- A viewer afterwards is what the loop body made of a viewer before.
  before_viewer :
      (s : ℕ) (u : ViewerState)
      → find_id after_viewers s ≡ some u
      → (v : ViewerState) × (find_id w.viewers s ≡ some v) × ((replicate_viewer w s v).viewer ≡ u)
  before_viewer s u e = elim (Option-cases (find_id w.viewers s)) [
    | inl gone ↦ absurd (ground (arith, e, gone, replicate_all-viewers w w.viewers s))
    | inr (v, there) ↦ (v, there, ground (arith, e, there, replicate_all-viewers w w.viewers s))
  ]

  pub after-Exact :
      (s : ℕ) (u : ViewerState)
      → find_id after_viewers s ≡ some u
      → Exact (map_values clean w.actors) u (after_clients s)
  after-Exact s u e =
      let (v, there, same) = before_viewer s u e in
      let sent = deliver-replicate_all w w.viewers s (clients s) h.unique in
      let exact : Exact w.actors u (told w s (some v) (clients s)) =
        subst (λ x. Exact w.actors x (told w s (some v) (clients s))) same
          (viewer-Exact s v there) in
      Exact-clean w.actors u (after_clients s)
        (subst (Exact w.actors u) (sym (sent ∙ ap (λ o. told w s o (clients s)) there)) exact)

  cleaned :
      (id : ℕ) (b : ActorState)
      → find_id (map_values clean w.actors) id ≡ some b
      → (a : ActorState) × (find_id w.actors id ≡ some a) × (clean a ≡ b)
  cleaned id b e = elim (Option-cases (find_id w.actors id)) [
    | inl gone ↦ absurd (ground (arith, e, gone, find_id-map_values clean w.actors id))
    | inr (a, there) ↦ (a, there, ground (arith, e, there, find_id-map_values clean w.actors id))
  ]

  pub after_lem :
      IsWorld next (map_values clean w.actors) after_viewers w.session_to_actor [] after_clients
  after_lem = record {
    named = λ id b e.
        let (a, there, same) = cleaned id b e in
        ap (λ (x : ActorState). x.actor_id) (sym same) ∙ h.named id a there;
    below = λ id b e. let (a, there, same) = cleaned id b e in h.below id a there;
    gone = λ id e. cc;
    plays = λ s id e.
        let (a, there, its) = h.plays s id e in
        (clean a, find_id-map_values clean w.actors id ∙ ap (option_map clean) there, its);
    looks = λ s u e.
        let (v, there, same) = before_viewer s u e in
        let (id, sees, known) = h.looks s v there in
        (
          id,
          ap (λ (x : ViewerState). x.actor_id) (sym same) ∙ replicate_viewer-actor_id w s v ∙ sees,
          known,
        );
    unique = replicate_all-IsUnique w w.viewers h.unique;
    sync =
        λ s u e. Exact-InSync (map_values clean w.actors) u (after_clients s) (after-Exact s u e);
    apart = λ s e id.
        let gone : find_id w.viewers s ≡ none = gone_before s e in
        ap (λ (r : Replica). r id)
          (deliver-replicate_all w w.viewers s (clients s) h.unique
            ∙ ap (λ o. told w s o (clients s)) gone)
        ∙ h.apart s gone id;
  }
    where
      gone_before : (s : ℕ) → find_id after_viewers s ≡ none → find_id w.viewers s ≡ none
      gone_before s e = elim (Option-cases (find_id w.viewers s)) [
        | inl gone ↦ gone
        | inr (v, there) ↦ absurd (ground (arith, e, there, replicate_all-viewers w w.viewers s))
      ]
