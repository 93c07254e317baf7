-- ===== src/Realtime/Runtime/Visible.antt =====
-- Which actors a viewer sees (the second part of `WorldRuntime::tick`).
use dynaxis.Base.{
  ℕ, suc, ◌≤◌, ◌≡◌, ap₂, abs, pos, negsuc, ℤ, leb_ℤ, ◌-ℤ◌, ◌+ℤ◌, subst, sym, ◌∙◌, ==_iff, ◌<◌, Bool,
  true, ◌&&◌, ◌||◌, List, [], ◌∷◌, arith, ltb, leb, ◌==◌, if◌then◌else◌, length, contains, Table,
  two_ways,
}
use dynaxis.Realtime.Runtime.State.{RuntimeConfig, ActorState}
use dynaxis.Realtime.Runtime.Inputs.{insert_id}
use dynaxis.Realtime.Runtime.Views.{near_ids, is_near, limit_ids, desired_visible}
use dynaxis.Realtime.Runtime.Replica.Samples.{contains-insert_id}

-- Two coordinates differ by the radius at most.
abbrev pub is_within : ℤ → ℤ → ℤ → Bool
is_within radius x y = leb_ℤ x (y +ℤ radius) && leb_ℤ y (x +ℤ radius)

-- Whether an actor of this number stands in a cell that differs from the viewer's by the radius at
-- most in both coordinates, or is the viewer's own.
abbrev pub is_around : RuntimeConfig → ActorState → Table ActorState → ℕ → Bool
is_around config viewer [] id = viewer.actor_id == id
is_around config viewer (e ∷ es) id =
    let radius = config.interest_radius_cells in
    let near =
      is_within radius viewer.cell_x e.1.cell_x && is_within radius viewer.cell_y e.1.cell_y in
    let rest = is_around config viewer es id in (e.0 == id && near) || rest

abs_within : (radius x y : ℤ) → leb_ℤ (pos (abs (x -ℤ y))) radius ≡ is_within radius y x
unfolding ◌-ℤ◌ ◌+ℤ◌
abs_within (pos r) (pos x) (pos y) = ground arith
abs_within (pos r) (pos x) (negsuc y) = ground arith
abs_within (pos r) (negsuc x) (pos y) = ground arith
abs_within (pos r) (negsuc x) (negsuc y) = ground arith
abs_within (negsuc r) (pos x) (pos y) = ground arith
abs_within (negsuc r) (pos x) (negsuc y) = ground arith
abs_within (negsuc r) (negsuc x) (pos y) = ground arith
abs_within (negsuc r) (negsuc x) (negsuc y) = ground arith

is_near_lem :
    (config : RuntimeConfig) (viewer actor : ActorState)
    → is_near config viewer actor ≡ (
        is_within config.interest_radius_cells viewer.cell_x actor.cell_x
        && is_within config.interest_radius_cells viewer.cell_y actor.cell_y)
is_near_lem config viewer actor =
    ap₂ (λ a b. a && b) (abs_within config.interest_radius_cells actor.cell_x viewer.cell_x)
      (abs_within config.interest_radius_cells actor.cell_y viewer.cell_y)

contains-near_ids :
    (config : RuntimeConfig) (viewer : ActorState) (ids : List ℕ) (actors : Table ActorState)
    (id : ℕ)
    → contains ids viewer.actor_id ≡ true
    → contains (near_ids config viewer ids actors) id
      ≡ (contains ids id || is_around config viewer actors id)
unfolding near_ids
contains-near_ids config viewer ids [] id own =
    ground (arith, own, (==_iff viewer.actor_id id).0, subst_in)
  where
    subst_in : (viewer.actor_id == id) ≡ true → contains ids id ≡ true
    subst_in h = subst (λ k. contains ids k ≡ true) ((==_iff viewer.actor_id id).0 h) own
contains-near_ids config viewer ids (e ∷ es) id own =
    let next =
      if e.0 == viewer.actor_id
      then ids
      else if is_near config viewer e.1
      then insert_id e.0 ids
      else ids in
    let kept : contains next viewer.actor_id ≡ true =
      ground (arith, own, contains-insert_id e.0 ids viewer.actor_id) in
    let ih = contains-near_ids config viewer next es id kept in
    let mine = λ (h : (e.0 == id) ≡ true). λ (k : (e.0 == viewer.actor_id) ≡ true).
      subst (λ k. contains ids k ≡ true)
        (sym ((==_iff e.0 viewer.actor_id).0 k) ∙ (==_iff e.0 id).0 h) own in
    ground (arith, ih, contains-insert_id e.0 ids id, mine, is_near_lem config viewer e.1)

length-insert_id : (n : ℕ) (xs : List ℕ) → length (insert_id n xs) ≤ suc (length xs)
unfolding insert_id
length-insert_id n [] = omega arith
length-insert_id n (x ∷ xs) = ground (arith, length-insert_id n xs)

limit_ids-length :
    (max : ℕ) (limited ids : List ℕ)
    → length limited ≤ max
    → length (limit_ids max limited ids) ≤ max
unfolding limit_ids
limit_ids-length max limited [] h = h
limit_ids-length max limited (i ∷ is) h =
    two_ways (λ (l : List ℕ). length l ≤ max) (leb max (length limited)) limited
      (limit_ids max (insert_id i limited) is) (λ full. h)
      (λ room.
        limit_ids-length max (insert_id i limited) is
          (ground (arith, room, length-insert_id i limited)))

limit_ids-contains :
    (max : ℕ) (limited ids : List ℕ) (id : ℕ)
    → (contains limited id ≡ true → contains (limit_ids max limited ids) id ≡ true)
      × (contains (limit_ids max limited ids) id ≡ true
          → (contains limited id || contains ids id) ≡ true)
unfolding limit_ids
limit_ids-contains max limited [] id = (λ h. h, λ h. ground (arith, h))
limit_ids-contains max limited (i ∷ is) id =
    let ih = limit_ids-contains max (insert_id i limited) is id in
    (
      λ h. ground (arith, h, ih.0, contains-insert_id i limited id),
      λ h. ground (arith, h, ih.1, contains-insert_id i limited id),
    )

-- The loop stops only at the limit.
limit_ids-full :
    (max : ℕ) (limited ids : List ℕ) (id : ℕ)
    → length (limit_ids max limited ids) < max
    → contains ids id ≡ true
    → contains (limit_ids max limited ids) id ≡ true
unfolding limit_ids
limit_ids-full max limited [] id h k = cc
limit_ids-full max limited (i ∷ is) id h k =
    let kept = (limit_ids-contains max (insert_id i limited) is id).0 in
    let ih = limit_ids-full max (insert_id i limited) is id in
    ground (arith, h, k, ih, kept, contains-insert_id i limited id)

-- A set of numbers is what a viewer may see, given how many it may see.
pub record IsView (config : RuntimeConfig) (viewer : ActorState) (actors : Table ActorState)
    (ids : List ℕ) : Type 0 where
  pub own : contains ids viewer.actor_id ≡ true
  pub around : (id : ℕ) → contains ids id ≡ true → is_around config viewer actors id ≡ true
  pub limited : length ids ≤ config.max_interest_recipients_per_tick
  pub all :
      length ids < config.max_interest_recipients_per_tick
      → (id : ℕ) → is_around config viewer actors id ≡ true
      → contains ids id ≡ true

module _ (config : RuntimeConfig) (viewer : ActorState) (actors : Table ActorState)
    (some_fit : 1 ≤ config.max_interest_recipients_per_tick) where
  abbrev just : List ℕ
  just = insert_id viewer.actor_id []

  just_own : contains just viewer.actor_id ≡ true
  just_own = ground (arith, contains-insert_id viewer.actor_id [] viewer.actor_id)

  is_around-own : (m : Table ActorState) → is_around config viewer m viewer.actor_id ≡ true
  is_around-own [] = ground arith
  is_around-own (e ∷ es) = ground (arith, is_around-own es)

  just_around : (id : ℕ) → contains just id ≡ true → is_around config viewer actors id ≡ true
  just_around id h =
      let k : viewer.actor_id ≡ id = ground (arith, h, contains-insert_id viewer.actor_id [] id) in
      subst (λ i. is_around config viewer actors i ≡ true) k (is_around-own actors)

  -- A viewer sees its own actor, only actors in cells that differ from its own by the radius at most
  -- in both coordinates, and not more than the limit; where it sees fewer than the limit, it sees all
  -- such actors. The limit is not 0, and differences of cells are exact, as they are where they fit
  -- 32 bits.
  pub desired_visible-IsView : IsView config viewer actors (desired_visible config viewer actors)
  unfolding desired_visible
  desired_visible-IsView =
      let max = config.max_interest_recipients_per_tick in
      let near = near_ids config viewer just actors in
      let near_is = λ (id : ℕ). contains-near_ids config viewer just actors id just_own in
      two_ways (IsView config viewer actors) (ltb max (length near)) (limit_ids max just near) near
        (λ over. record {
          own = (limit_ids-contains max just near viewer.actor_id).0 just_own;
          around = λ id h.
              ground (arith, (limit_ids-contains max just near id).1 h, near_is id, just_around id);
          limited =
              limit_ids-length max just near
                (omega (arith, some_fit, length-insert_id viewer.actor_id []));
          all = λ room id h. limit_ids-full max just near id room (ground (arith, h, near_is id));
        })
        (λ fits. record {
          own = ground (arith, near_is viewer.actor_id, just_own);
          around = λ id h. ground (arith, h, near_is id, just_around id);
          limited = ground (arith, fits);
          all = λ room id h. ground (arith, h, near_is id);
        })
