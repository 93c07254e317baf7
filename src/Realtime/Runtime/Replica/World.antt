-- ===== src/Realtime/Runtime/Replica/World.antt =====
-- What holds of a world and its clients between calls, and that new sessions keep it.
use dynaxis.Base.{
  ℕ, suc, ◌+◌, ◌^◌, ◌<◌, ◌≡◌, ap, ◌∙◌, sym, subst, true, false, Option, none, some, List, [], ◌∷◌,
  arith, ◌==◌, u32, Table, find_id, put_id, find_id-put_some, find_id-put_at, find_id-put_past,
  find_id-put_none, put_id-IsUnique, IsUnique, contains, Option-cases, inl, inr,
}
use dynaxis.Realtime.Runtime.State.{ActorState, ViewerState}
use dynaxis.Realtime.Runtime.Replica.{Replica, InSync, IsNamed}

-- The actor of a session.
abbrev pub Plays : Table ActorState → ℕ → ℕ → Type 0
Plays actors session id = (a : ActorState) × (find_id actors id ≡ some a) × (a.session_id ≡ session)

-- The viewer of a session looks through the session's actor.
abbrev pub Looks : Table ℕ → ℕ → ViewerState → Type 0
Looks sessions session v = (id : ℕ) × (v.actor_id ≡ some id) × (find_id sessions session ≡ some id)

pub record IsWorld (next : ℕ) (actors : Table ActorState) (viewers : Table ViewerState)
    (sessions : Table ℕ) (removed : List ℕ) (clients : ℕ → Replica) : Type 0 where
  pub named : IsNamed actors
  pub below : (id : ℕ) (a : ActorState) → find_id actors id ≡ some a → id < next
  pub gone : (id : ℕ) → contains removed id ≡ true → (find_id actors id ≡ none) × (id < next)
  pub plays : (s id : ℕ) → find_id sessions s ≡ some id → Plays actors s id
  pub looks : (s : ℕ) (v : ViewerState) → find_id viewers s ≡ some v → Looks sessions s v
  pub unique : IsUnique viewers
  pub sync : (s : ℕ) (v : ViewerState) → find_id viewers s ≡ some v → InSync actors v (clients s)
  pub apart : (s : ℕ) → find_id viewers s ≡ none → (id : ℕ) → clients s id ≡ none

not_both {ℓ} : {A : Type ℓ} {x : A} (o : Option A) → o ≡ none → o ≡ some x → ⊥
not_both o h k = cc

pub some_same {ℓ} : {A : Type ℓ} {x y : A} → some x ≡ some y → x ≡ y
some_same e = cc

seen_none : (ids : List ℕ) (id : ℕ) → ids ≡ [] → contains ids id ≡ true → ⊥
seen_none [] id e h = cc
seen_none (x ∷ xs) id e h = cc

dirty_clean : (a b : ActorState) → a ≡ b → a.dirty ≡ true → b.dirty ≡ false → ⊥
dirty_clean a b same d c = cc (ap (λ (x : ActorState). x.dirty) same)

-- A number that is not another one, as a test.
apart_from : (x y : ℕ) → y < x → (x == y) ≡ false
apart_from x y h = ground (arith, h)

module _ {next : ℕ} {actors : Table ActorState} {viewers : Table ViewerState} {sessions : Table ℕ}
    {removed : List ℕ} {clients : ℕ → Replica}
    (w : IsWorld next actors viewers sessions removed clients) where
  -- The number of the next actor is free.
  pub next_free : find_id actors next ≡ none
  next_free = elim (Option-cases (find_id actors next)) [
    | inl e ↦ e
    | inr (a, e) ↦ absurd (omega (arith, w.below next a e))
  ]

  -- A session without an actor has no viewer.
  pub unseen : (s : ℕ) → find_id sessions s ≡ none → find_id viewers s ≡ none
  unseen s h = elim (Option-cases (find_id viewers s)) [
    | inl e ↦ e
    | inr (v, e) ↦
        let (id, through, known) = w.looks s v e in absurd (not_both (find_id sessions s) h known)
  ]

  module _ (s : ℕ) (a : ActorState) (v : ViewerState) (new : find_id sessions s ≡ none)
      (numbered : a.actor_id ≡ next) (for_session : a.session_id ≡ s) (dirty : a.dirty ≡ true)
      (through : v.actor_id ≡ some next) (blind : v.visible_actor_ids ≡ [])
      (fits : suc next < 2 ^ 32) where
    pub join_lem :
        IsWorld
          (u32 (next + 1))
          (put_id actors next a)
          (put_id viewers s v)
          (put_id sessions s next)
          removed
          clients
    join_lem = record {
      named = λ id b e. elim (find_id-put_some actors next id a b e) [
        | inl (k, same) ↦ ap (λ (x : ActorState). x.actor_id) (sym same) ∙ numbered ∙ k
        | inr (differs, old) ↦ w.named id b old
      ];
      below = λ id b e. elim (find_id-put_some actors next id a b e) [
        | inl (k, same) ↦ omega (arith, k, fits)
        | inr (differs, old) ↦ omega (arith, w.below id b old, fits)
      ];
      gone = λ id e.
          let (none_there, less) = w.gone id e in
          (
            find_id-put_past actors next id a (apart_from next id less) ∙ none_there,
            omega (arith, less, fits),
          );
      plays = λ t id e. elim (find_id-put_some sessions s t next id e) [
        | inl (k, same) ↦ (
          a,
          subst (λ i. find_id (put_id actors next a) i ≡ some a) same
              (find_id-put_at actors next a),
          for_session ∙ k,
        )
        | inr (differs, old) ↦
            let (b, there, its) = w.plays t id old in
            (
              b,
              find_id-put_past actors next id a (apart_from next id (w.below id b there)) ∙ there,
              its,
            )
      ];
      looks = λ t u e. elim (find_id-put_some viewers s t v u e) [
        | inl (k, same) ↦ (
          next,
          ap (λ (x : ViewerState). x.actor_id) (sym same) ∙ through,
          subst (λ i. find_id (put_id sessions s next) i ≡ some next) k
              (find_id-put_at sessions s next),
        )
        | inr (differs, old) ↦
            let (id, sees, known) = w.looks t u old in
            (id, sees, find_id-put_past sessions s t next differs ∙ known)
      ];
      unique = put_id-IsUnique viewers s v w.unique;
      sync = λ t u e. elim (find_id-put_some viewers s t v u e) [
        | inl (k, same) ↦
            let empty : u.visible_actor_ids ≡ [] =
              ap (λ (x : ViewerState). x.visible_actor_ids) (sym same) ∙ blind in
            record {
              hidden =
                  λ id h. w.apart t (subst (λ i. find_id viewers i ≡ none) k (unseen s new)) id;
              shown = λ id b h there clean. absurd (seen_none u.visible_actor_ids id empty h);
            }
        | inr (differs, old) ↦
            let i = w.sync t u old in
            record {
              hidden = i.hidden;
              shown = λ id b h there clean. elim (find_id-put_some actors next id a b there) [
                | inl (k, same) ↦ absurd (dirty_clean a b same dirty clean)
                | inr (apart, was) ↦ i.shown id b h was clean
              ];
            }
      ];
      apart = λ t e id. w.apart t (find_id-put_none viewers s t v e) id;
    }
