-- ===== src/Realtime/Runtime/Replica/Actors.antt =====
-- Inputs and histories change no actor that they leave clean.
use dynaxis.Base.{
  ℕ, ◌≡◌, refl, ap, ◌∙◌, false, Option, none, some, [], ◌∷◌, arith, ◌==◌, Table, find_id, put_id,
  map_values, find_id-put_id, find_id-map_values, option_map, u32, ◌+◌, ==_iff, Bool-cases, inl,
  inr, sym, subst,
}
use dynaxis.Realtime.Runtime.State.{
  RuntimeConfig, StagedInput, ActorState, WorldRuntime, update_actor_cells,
}
use dynaxis.Realtime.Runtime.Ticks.{
  apply_staged, step_actor, apply_found, apply_inputs, record_history, advance,
}
use dynaxis.Realtime.Runtime.Replica.{shown_of}

pub record Follows (a b : ActorState) : Type 0 where
  pub actor_id : b.actor_id ≡ a.actor_id
  pub session_id : b.session_id ≡ a.session_id
  pub clean : b.dirty ≡ false → (a.dirty ≡ false) × (shown_of b ≡ shown_of a)

Follows-refl : (a : ActorState) → Follows a a
Follows-refl a = record { actor_id = refl; session_id = refl; clean = λ h. (h, refl) }

Follows-trans : (a b c : ActorState) → Follows a b → Follows b c → Follows a c
Follows-trans a b c h k = record {
  actor_id = k.actor_id ∙ h.actor_id;
  session_id = k.session_id ∙ h.session_id;
  clean = λ d.
      let (b_clean, same) = k.clean d in
      let (a_clean, same') = h.clean b_clean in (a_clean, same ∙ same');
}

-- The same actor, before and after, or none at both times.
abbrev pub Related :
    (ActorState → ActorState → Type 0) → Option ActorState → Option ActorState → Type 0
Related R none none = Unit
Related R none (some b) = ⊥
Related R (some a) none = ⊥
Related R (some a) (some b) = R a b

module _ (R : ActorState → ActorState → Type 0) (R-refl : (a : ActorState) → R a a)
    (R-trans : (a b c : ActorState) → R a b → R b c → R a c) where
  Related-refl : (o : Option ActorState) → Related R o o
  Related-refl none = record {}
  Related-refl (some a) = R-refl a

  pub Related-trans : (o p q : Option ActorState) → Related R o p → Related R p q → Related R o q
  Related-trans none none none h k = record {}
  Related-trans none none (some c) h k = k
  Related-trans none (some b) q h k = absurd h
  Related-trans (some a) none q h k = absurd h
  Related-trans (some a) (some b) none h k = k
  Related-trans (some a) (some b) (some c) h k = R-trans a b c h k

  module _ (config : RuntimeConfig)
      (R-step : (staged : Option StagedInput) (a : ActorState)
        → R a (step_actor config staged a)) where
    -- One session's input touches its own actor.
    apply_found-Related :
        (staged : Option StagedInput) (actors : Table ActorState) (key id : ℕ)
        (o : Option ActorState)
        → find_id actors key ≡ o
        → Related R (find_id actors id) (find_id (apply_found config staged actors key o) id)
    apply_found-Related staged actors key id none found = Related-refl (find_id actors id)
    apply_found-Related staged actors key id (some a) found = elim (Bool-cases (key == id)) [
      | inl same ↦
          let e : key ≡ id = (==_iff key id).0 same in
          let after : find_id (put_id actors key (step_actor config staged a)) id
              ≡ some (step_actor config staged a) =
            ground (arith, find_id-put_id actors key id (step_actor config staged a), same) in
          let before : find_id actors id ≡ some a = ap (find_id actors) (sym e) ∙ found in
          subst (λ o. Related R o (find_id (put_id actors key (step_actor config staged a)) id))
            (sym before) (subst (Related R (some a)) (sym after) (R-step staged a))
      | inr differs ↦
          let after : find_id (put_id actors key (step_actor config staged a)) id
              ≡ find_id actors id =
            ground (arith, find_id-put_id actors key id (step_actor config staged a), differs) in
          subst (Related R (find_id actors id)) (sym after) (Related-refl (find_id actors id))
    ]

    pub apply_inputs-Related :
        (staged : Table StagedInput) (actors : Table ActorState) (sessions : Table ℕ) (id : ℕ)
        → Related R (find_id actors id) (find_id (apply_inputs config staged actors sessions) id)
    unfolding apply_inputs
    apply_inputs-Related staged actors [] id = Related-refl (find_id actors id)
    apply_inputs-Related staged actors (e ∷ es) id =
        let next = apply_found config (find_id staged e.0) actors e.1 (find_id actors e.1) in
        Related-trans (find_id actors id) (find_id next id)
          (find_id (apply_inputs config staged next es) id)
          (apply_found-Related (find_id staged e.0) actors e.1 id (find_id actors e.1) refl)
          (apply_inputs-Related staged next es id)

  pub map_values-Related :
      (f : ActorState → ActorState) (actors : Table ActorState) (id : ℕ)
      → ((a : ActorState) → R a (f a))
      → Related R (find_id actors id) (find_id (map_values f actors) id)
  map_values-Related f actors id each =
      subst (Related R (find_id actors id)) (sym (find_id-map_values f actors id))
        (mapped (find_id actors id))
    where
      mapped : (o : Option ActorState) → Related R o (option_map f o)
      mapped none = record {}
      mapped (some a) = each a

apply_staged-Follows :
    (staged : Option StagedInput) (a : ActorState) → Follows a (apply_staged staged a)
apply_staged-Follows none a = Follows-refl a
apply_staged-Follows (some s) a = record {
  actor_id = ground arith;
  session_id = ground arith;
  clean = λ h. (ground (arith, h), ground (arith, h));
}

step_actor-Follows :
    (config : RuntimeConfig) (staged : Option StagedInput) (a : ActorState)
    → Follows a (step_actor config staged a)
unfolding step_actor update_actor_cells
step_actor-Follows config staged a =
    let f = apply_staged-Follows staged a in
    record { actor_id = f.actor_id; session_id = f.session_id; clean = f.clean }

record_history-Follows : (n t : ℕ) (a : ActorState) → Follows a (record_history n t a)
unfolding record_history
record_history-Follows n t a = record { actor_id = refl; session_id = refl; clean = λ h. (h, refl) }

pub advance-Related :
    (w : WorldRuntime) (id : ℕ)
    → Related Follows (find_id w.actors id) (find_id (advance w).actors id)
unfolding advance
advance-Related w id =
    let moved = apply_inputs w.config w.staged_inputs w.actors w.session_to_actor in
    let t = u32 (w.server_tick + 1) in
    Related-trans Follows Follows-refl Follows-trans (find_id w.actors id) (find_id moved id)
      (find_id (map_values (record_history w.config.history_ticks t) moved) id)
      (apply_inputs-Related Follows Follows-refl Follows-trans w.config
        (step_actor-Follows w.config) w.staged_inputs w.actors w.session_to_actor id)
      (map_values-Related Follows Follows-refl Follows-trans
        (record_history w.config.history_ticks t) moved id
        (record_history-Follows w.config.history_ticks t))

-- What an actor that is there after was before.
module _ (R : ActorState → ActorState → Type 0) where
  pub Related-some :
      (o : Option ActorState) (b : ActorState)
      → Related R o (some b)
      → (a : ActorState) × (o ≡ some a) × R a b
  Related-some none b h = absurd h
  Related-some (some a) b h = (a, refl, h)

  pub Related-kept :
      (a : ActorState) (p : Option ActorState)
      → Related R (some a) p
      → (b : ActorState) × (p ≡ some b) × R a b
  Related-kept a none h = absurd h
  Related-kept a (some b) h = (b, refl, h)

  pub Related-none : (p : Option ActorState) → Related R none p → p ≡ none
  Related-none none h = refl
  Related-none (some b) h = absurd h
