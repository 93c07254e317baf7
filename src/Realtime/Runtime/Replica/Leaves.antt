-- ===== src/Realtime/Runtime/Replica/Leaves.antt =====
-- Sessions that leave keep the world and its clients in order.
use dynaxis.Base.{
  ℕ, ◌<◌, ◌≡◌, ap, ◌∙◌, sym, subst, false, none, some, List, arith, ◌==◌, if◌then◌else◌, Table,
  find_id, erase_id, find_id-erase_some, find_id-erase_at, find_id-erase_past, erase_id-IsUnique,
  Bool-cases, inl, inr, ==_iff,
}
use dynaxis.Realtime.Runtime.State.{ActorState, ViewerState}
use dynaxis.Realtime.Runtime.Inputs.{insert_id}
use dynaxis.Realtime.Runtime.Replica.{Replica, nothing_shown, InSync}
use dynaxis.Realtime.Runtime.Replica.Samples.{contains-insert_id}
use dynaxis.Realtime.Runtime.Replica.World.{IsWorld, some_same}

-- The clients once a session has left: its replica shows nothing.
abbrev pub closed_for : ℕ → (ℕ → Replica) → ℕ → Replica
closed_for s clients = λ t. if s == t then nothing_shown else clients t

closed_past :
    (s t : ℕ) (clients : ℕ → Replica) → (s == t) ≡ false → closed_for s clients t ≡ clients t
closed_past s t clients h = ap (λ b. if b then nothing_shown else clients t) h

module _ {next : ℕ} {actors : Table ActorState} {viewers : Table ViewerState} {sessions : Table ℕ}
    {removed : List ℕ} {clients : ℕ → Replica}
    (w : IsWorld next actors viewers sessions removed clients) (s : ℕ) where
  closed_apart :
      (t : ℕ) → find_id (erase_id viewers s) t ≡ none → (id : ℕ) → closed_for s clients t id ≡ none
  closed_apart t e id = elim (Bool-cases (s == t)) [
    | inl same ↦ ap (λ b. (if b then nothing_shown else clients t) id) same
    | inr differs ↦
        ap (λ (r : Replica). r id) (closed_past s t clients differs)
        ∙ w.apart t (sym (find_id-erase_past viewers s t differs) ∙ e) id
  ]

  -- A session without an actor leaves.
  pub leave_unknown :
      find_id sessions s ≡ none
      → IsWorld next actors (erase_id viewers s) sessions removed (closed_for s clients)
  leave_unknown new = record {
    named = w.named;
    below = w.below;
    gone = w.gone;
    plays = w.plays;
    looks = λ t u e. w.looks t u (find_id-erase_some viewers s t u e).1;
    unique = erase_id-IsUnique viewers s w.unique;
    sync = λ t u e.
        let (differs, old) = find_id-erase_some viewers s t u e in
        subst (InSync actors u) (sym (closed_past s t clients differs)) (w.sync t u old);
    apart = closed_apart;
  }

  -- A session with an actor leaves, and its actor with it.
  pub leave_known :
      (key : ℕ)
      → find_id sessions s ≡ some key
      → IsWorld next
          (erase_id actors key)
          (erase_id viewers s)
          (erase_id sessions s)
          (insert_id key removed)
          (closed_for s clients)
  leave_known key known = record {
    named = λ id b e. w.named id b (find_id-erase_some actors key id b e).1;
    below = λ id b e. w.below id b (find_id-erase_some actors key id b e).1;
    gone = λ id e. elim (Bool-cases (key == id)) [
      | inl same ↦
          let k = (==_iff key id).0 same in
          let (b, there, its) = w.plays s key known in
          (
            subst (λ i. find_id (erase_id actors key) i ≡ none) k (find_id-erase_at actors key),
            subst (λ i. i < next) k (w.below key b there),
          )
      | inr differs ↦
          let (none_there, less) =
            w.gone id (ground (arith, e, differs, contains-insert_id key removed id)) in
          (find_id-erase_past actors key id differs ∙ none_there, less)
    ];
    plays = λ t id e.
        let (differs, old) = find_id-erase_some sessions s t id e in
        let (b, there, its) = w.plays t id old in
        (b, find_id-erase_past actors key id (other t id b differs there its) ∙ there, its);
    looks = λ t u e.
        let (differs, old) = find_id-erase_some viewers s t u e in
        let (id, sees, found) = w.looks t u old in
        (id, sees, find_id-erase_past sessions s t differs ∙ found);
    unique = erase_id-IsUnique viewers s w.unique;
    sync = λ t u e.
        let (differs, old) = find_id-erase_some viewers s t u e in
        subst (InSync (erase_id actors key) u) (sym (closed_past s t clients differs)) (record {
          hidden = (w.sync t u old).hidden;
          shown = λ id b h there clean.
              (w.sync t u old).shown id b h (find_id-erase_some actors key id b there).1 clean;
        });
    apart = closed_apart;
  }
    where
      -- Two sessions have two actors.
      other :
          (t id : ℕ) (b : ActorState)
          → (s == t) ≡ false
          → find_id actors id ≡ some b
          → b.session_id ≡ t
          → (key == id) ≡ false
      other t id b differs there its = elim (Bool-cases (key == id)) [
        | inl same ↦
            let k = (==_iff key id).0 same in
            let (c, here, his) = w.plays s key known in
            let one : c ≡ b = some_same (sym here ∙ ap (find_id actors) k ∙ there) in
            let e : s ≡ t = sym his ∙ ap (λ (x : ActorState). x.session_id) one ∙ its in
            ground (arith, differs, e)
        | inr apart ↦ apart
      ]
