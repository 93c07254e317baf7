-- ===== src/Realtime/Runtime/Replica/Updates.antt =====
-- What one viewer is told brings its replica up to date.
use dynaxis.Base.{
  ℕ, ◌≡◌, refl, ap, ap₂, sym, subst, ◌∙◌, inl, inr, true, false, not, ◌&&◌, ◌||◌, Option, none,
  some, List, [], ◌∷◌, arith, ltb, if◌then◌else◌, is_empty, contains, Table, find_id, option_map,
  three_ways, Bool-cases, Option-cases, length,
}
use dynaxis.Realtime.Runtime.State.{ActorState, ViewerState, WorldRuntime, ActorTransformSample}
use dynaxis.Realtime.Runtime.Views.{
  desired_visible, removed_for_viewer, Outcome, settle, samples, is_due, replicate_to,
}
use dynaxis.Realtime.Runtime.Replica.{
  shown_of, Replica, find_sample, apply_delta, apply_update, apply_sent, Exact, InSync, IsNamed,
}
use dynaxis.Realtime.Runtime.Replica.Samples.{
  same_ids_eq, desired_found, removed_unseen, samples_found, is_found, pick,
}

-- A delta brings a replica in step to the actors as they are.
apply_delta-Exact :
    (t : ℕ) (actors : Table ActorState) (v : ViewerState) (removed : List ℕ) (r : Replica)
    → IsNamed actors
    → InSync actors v r
    → ((id : ℕ) → contains v.visible_actor_ids id ≡ true → is_found (find_id actors id) ≡ true)
    → ((id : ℕ) → contains v.visible_actor_ids id ≡ true → contains removed id ≡ false)
    → Exact actors v (apply_delta (samples t false actors v.visible_actor_ids) removed r)
unfolding apply_delta
apply_delta-Exact t actors v removed r named sync exist kept id =
    elim (Bool-cases (contains v.visible_actor_ids id)) [
      | inl seen ↦ elim (Option-cases (find_id actors id)) [
        | inl none_there ↦ ground (arith, exist id seen, none_there)
        | inr (a, there) ↦ ground (
          arith,
          seen,
          there,
          kept id seen,
          sync.shown id a seen there,
          samples_found t false actors v.visible_actor_ids id named,
        )
      ]
      | inr unseen ↦ ground (
        arith,
        unseen,
        sync.hidden id unseen,
        samples_found t false actors v.visible_actor_ids id named,
      )
    ]

is_empty_nil {ℓ} : {A : Type ℓ} (xs : List A) → is_empty xs ≡ true → xs ≡ []
is_empty_nil [] h = refl
is_empty_nil (x ∷ xs) h = cc

apply_nothing : (r : Replica) (id : ℕ) → apply_delta [] [] r id ≡ r id
unfolding apply_delta find_sample
apply_nothing r id = refl

pick_all : (o : Option ActorState) → pick true o ≡ option_map shown_of o
pick_all none = refl
pick_all (some a) = refl

module _ (w : WorldRuntime) (session : ℕ) (v : ViewerState) (a : ActorState) (r : Replica)
    (named : IsNamed w.actors) (own : find_id w.actors a.actor_id ≡ some a)
    (sync : InSync w.actors v r)
    (gone : (id : ℕ) → contains w.removed_actor_ids id ≡ true → find_id w.actors id ≡ none) where
  abbrev desired : List ℕ
  desired = desired_visible w.config a w.actors

  abbrev removed : List ℕ
  removed = removed_for_viewer v.visible_actor_ids desired w.removed_actor_ids

  abbrev dirty_samples : List ActorTransformSample
  dirty_samples = samples w.server_tick false w.actors desired

  desired_kept : (id : ℕ) → contains desired id ≡ true → contains w.removed_actor_ids id ≡ false
  desired_kept id seen = ground (arith, gone id, desired_found w.config a w.actors own id seen)

  quiet-Exact :
      is_due w desired v ≡ false
      → Exact w.actors
          (record v { visible_actor_ids = desired })
          (apply_delta dirty_samples removed r)
  unfolding is_due
  quiet-Exact quiet =
      let same : desired ≡ v.visible_actor_ids =
        same_ids_eq desired v.visible_actor_ids (ground (arith, quiet)) in
      apply_delta-Exact w.server_tick w.actors (record v { visible_actor_ids = desired }) removed r
        named (subst (λ d. InSync w.actors (record v { visible_actor_ids = d }) r) (sym same) sync)
        (desired_found w.config a w.actors own)
        (λ id seen.
          removed_unseen v.visible_actor_ids desired w.removed_actor_ids id seen
            (desired_kept id seen))

  -- Whatever is sent, or nothing, the replica then shows exactly what the viewer sees.
  pub replicate_to-Exact :
      Exact w.actors
        (replicate_to w session v a).viewer
        (apply_sent (replicate_to w session v a).update r)
  unfolding replicate_to settle apply_update
  replicate_to-Exact =
      let due = is_due w desired v in
      let over = not due && ltb w.config.max_delta_actors_per_tick (length dirty_samples) in
      three_ways (λ (o : Outcome). Exact w.actors o.viewer (apply_sent o.update r)) (due || over)
        (not (is_empty dirty_samples) || not (is_empty removed)) _ _ _ (λ h. full)
        (λ h k. part (ground (arith, h)))
        (λ h k. silent (ground (arith, h)) (ground (arith, k)) (ground (arith, k)))
    where
      full :
          Exact w.actors
            (record v { visible_actor_ids = desired })
            (find_sample (samples w.server_tick true w.actors desired))
      full id =
          samples_found w.server_tick true w.actors desired id named
          ∙ ap (λ o. if contains desired id then o else none) (pick_all (find_id w.actors id))

      part :
          is_due w desired v ≡ false
          → Exact w.actors
              (record v { visible_actor_ids = desired })
              (apply_delta dirty_samples removed r)
      part quiet = quiet-Exact quiet

      silent :
          is_due w desired v ≡ false
          → is_empty dirty_samples ≡ true
          → is_empty removed ≡ true
          → Exact w.actors (record v { visible_actor_ids = desired }) r
      silent quiet no_samples none_removed id =
          sym (apply_nothing r id)
          ∙ ap₂ (λ l m. apply_delta l m r id) (sym (is_empty_nil dirty_samples no_samples))
              (sym (is_empty_nil removed none_removed))
          ∙ quiet-Exact quiet id
