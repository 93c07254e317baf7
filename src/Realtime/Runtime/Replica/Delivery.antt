-- ===== src/Realtime/Runtime/Replica/Delivery.antt =====
-- Every viewer gets its own updates, and no other's.
use dynaxis.Base.{
  ℕ, ◌≡◌, refl, ap, ◌∙◌, sym, Bool, true, false, Option, none, some, List, [], ◌∷◌, arith, ◌==◌,
  if◌then◌else◌, Table, find_id, IsUnique, option_map, Bool-cases, inl, inr, ==_iff,
}
use dynaxis.Realtime.Runtime.State.{ViewerState, WorldRuntime, ActorState}
use dynaxis.Realtime.Runtime.Views.{
  ReplicationUpdate, settle, replicate_to, replicate_found, replicate_viewer, replicate_all,
  add_update, viewer_actor,
}
use dynaxis.Realtime.Runtime.Replica.{Replica, apply_update, apply_sent, deliver}

-- An update, if there is one, names the session.
abbrev IsFor : ℕ → Option ReplicationUpdate → Type 0
IsFor session none = Unit
IsFor session (some u) = u.session_id ≡ session

settle-IsFor :
    (session t : ℕ) (over : Bool) (full partial : ReplicationUpdate) (seen : ViewerState)
    (due changed : Bool)
    → full.session_id ≡ session
    → partial.session_id ≡ session
    → IsFor session (settle t over full partial seen due changed).update
unfolding settle
settle-IsFor session t over full partial seen true changed hf hp = hf
settle-IsFor session t over full partial seen false true hf hp = hp
settle-IsFor session t over full partial seen false false hf hp = tt

replicate_to-IsFor :
    (w : WorldRuntime) (session : ℕ) (v : ViewerState) (a : ActorState)
    → IsFor session (replicate_to w session v a).update
unfolding replicate_to
replicate_to-IsFor w session v a = settle-IsFor session _ _ _ _ _ _ _ refl refl

replicate_viewer-IsFor :
    (w : WorldRuntime) (session : ℕ) (v : ViewerState)
    → IsFor session (replicate_viewer w session v).update
unfolding replicate_viewer
replicate_viewer-IsFor w session v = found (viewer_actor w.actors v.actor_id)
  where
    found : (o : Option ActorState) → IsFor session (replicate_found w session v o).update
    found none = record {}
    found (some a) = replicate_to-IsFor w session v a

-- What a session is sent.
abbrev pub told : WorldRuntime → ℕ → Option ViewerState → Replica → Replica
told w session none r = r
told w session (some v) r = apply_sent (replicate_viewer w session v).update r

-- The viewers afterwards.
pub replicate_all-viewers :
    (w : WorldRuntime) (viewers : Table ViewerState) (session : ℕ)
    → find_id (replicate_all w viewers).1 session
      ≡ option_map (λ v. (replicate_viewer w session v).viewer) (find_id viewers session)
unfolding replicate_all find_id
replicate_all-viewers w [] session = refl
replicate_all-viewers w (e ∷ es) session =
    let ih = replicate_all-viewers w es session in
    elim (Bool-cases (e.0 == session)) [
      | inl same ↦
          let k = (==_iff e.0 session).0 same in
          ground (arith, same, ap (λ i. (replicate_viewer w i e.1).viewer) k)
      | inr differs ↦ ground (arith, differs, ih)
    ]

pub replicate_all-IsUnique :
    (w : WorldRuntime) (viewers : Table ViewerState)
    → IsUnique viewers
    → IsUnique (replicate_all w viewers).1
unfolding replicate_all IsUnique
replicate_all-IsUnique w [] h = h
replicate_all-IsUnique w (e ∷ es) h = (
  replicate_all-viewers w es e.0 ∙ ap (option_map (λ v. (replicate_viewer w e.0 v).viewer)) h.0,
  replicate_all-IsUnique w es h.1,
)

either : (b : Bool) (r : Replica) → (if b then r else r) ≡ r
either true r = refl
either false r = refl

deliver_add :
    (o : Option ReplicationUpdate) (us : List ReplicationUpdate) (key session : ℕ) (r : Replica)
    → IsFor key o
    → deliver (add_update o us) session r
      ≡ deliver us session (if key == session then apply_sent o r else r)
unfolding deliver
deliver_add none us key session r h = ap (deliver us session) (sym (either (key == session) r))
deliver_add (some u) us key session r h =
    ap (λ k. deliver us session (if k == session then apply_update u r else r)) h

deliver_nil : (session : ℕ) (r : Replica) → deliver [] session r ≡ r
unfolding deliver
deliver_nil session r = refl

pub deliver-replicate_all :
    (w : WorldRuntime) (viewers : Table ViewerState) (session : ℕ) (r : Replica)
    → IsUnique viewers
    → deliver (replicate_all w viewers).0 session r ≡ told w session (find_id viewers session) r
unfolding replicate_all IsUnique find_id
deliver-replicate_all w [] session r h = deliver_nil session r
deliver-replicate_all w (e ∷ es) session r h =
    let sent = (replicate_viewer w e.0 e.1).update in
    let next = if e.0 == session then apply_sent sent r else r in
    let added =
      deliver_add sent (replicate_all w es).0 e.0 session r (replicate_viewer-IsFor w e.0 e.1) in
    let ih = deliver-replicate_all w es session next h.1 in
    elim (Bool-cases (e.0 == session)) [
      | inl same ↦
          let k = (==_iff e.0 session).0 same in
          ground (
            arith,
            same,
            added,
            ih,
            h.0,
            ap (find_id es) k,
            ap (λ i. apply_sent (replicate_viewer w i e.1).update r) k,
          )
      | inr differs ↦ ground (arith, differs, added, ih)
    ]
