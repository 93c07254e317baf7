-- ===== src/Realtime/Runtime/Replica/Samples.antt =====
-- What an update lists: the samples of the visible actors, and the removed ones.
use dynaxis.Base.{
  ℕ, ◌≡◌, refl, ap, sym, ◌∙◌, inl, inr, Bool, true, false, not, ◌&&◌, ◌||◌, Option, none, some,
  List, [], ◌∷◌, ◌++◌, arith, ◌==◌, if◌then◌else◌, contains, keep_if, Table, find_id, ==_iff,
  Bool-cases,
}
use dynaxis.Realtime.Runtime.State.{RuntimeConfig, ActorState, ActorTransformSample}
use dynaxis.Realtime.Runtime.Inputs.{insert_id}
use dynaxis.Realtime.Runtime.Views.{
  near_ids, is_near, limit_ids, desired_visible, add_removed, removed_for_viewer, samples,
  found_sample, same_ids,
}
use dynaxis.Realtime.Runtime.Replica.{Shown, shown_of, find_sample, IsNamed}

contains-append :
    (xs ys : List ℕ) (n : ℕ) → contains (xs ++ ys) n ≡ (contains xs n || contains ys n)
contains-append [] ys n = refl
contains-append (x ∷ xs) ys n = ground (arith, contains-append xs ys n)

pub contains-insert_id :
    (n : ℕ) (xs : List ℕ) (id : ℕ) → contains (insert_id n xs) id ≡ (n == id || contains xs id)
unfolding insert_id
contains-insert_id n [] id = refl
contains-insert_id n (x ∷ xs) id = ground (arith, contains-insert_id n xs id)

contains-keep_if :
    (p : ℕ → Bool) (xs : List ℕ) (id : ℕ) → contains (keep_if p xs) id ≡ true → p id ≡ true
contains-keep_if p [] id h = cc
contains-keep_if p (x ∷ xs) id h = elim (Bool-cases (x == id)) [
  | inl same ↦
      let e : x ≡ id = (==_iff x id).0 same in ground (arith, h, ap p e, contains-keep_if p xs id)
  | inr differs ↦ ground (arith, h, differs, contains-keep_if p xs id)
]

pub same_ids_eq : (xs ys : List ℕ) → same_ids xs ys ≡ true → xs ≡ ys
unfolding same_ids
same_ids_eq [] [] h = refl
same_ids_eq [] (y ∷ ys) h = cc
same_ids_eq (x ∷ xs) [] h = cc
same_ids_eq (x ∷ xs) (y ∷ ys) h = ground (arith, h, same_ids_eq xs ys)

abbrev pub is_found {ℓ} : {A : Type ℓ} → Option A → Bool
is_found none = false
is_found (some a) = true

-- What the loop over the actors adds is found among them.
near_ids_found :
    (config : RuntimeConfig) (viewer : ActorState) (ids : List ℕ) (m : Table ActorState) (id : ℕ)
    → contains (near_ids config viewer ids m) id ≡ true
    → (contains ids id || is_found (find_id m id)) ≡ true
unfolding near_ids find_id
near_ids_found config viewer ids [] id h = ground (arith, h)
near_ids_found config viewer ids (e ∷ es) id h =
    let next =
      if e.0 == viewer.actor_id
      then ids
      else if is_near config viewer e.1
      then insert_id e.0 ids
      else ids in
    let ih = near_ids_found config viewer next es id h in
    ground (arith, ih, contains-insert_id e.0 ids id)

limit_ids_found :
    (max : ℕ) (limited ids : List ℕ) (id : ℕ)
    → contains (limit_ids max limited ids) id ≡ true
    → (contains limited id || contains ids id) ≡ true
unfolding limit_ids
limit_ids_found max limited [] id h = ground (arith, h)
limit_ids_found max limited (i ∷ is) id h =
    ground
      (arith, h, limit_ids_found max (insert_id i limited) is id, contains-insert_id i limited id)

-- The sample of an actor, where it is sent.
abbrev pub pick : Bool → Option ActorState → Option Shown
pick all none = none
pick all (some a) = if all || a.dirty then some (shown_of a) else none

abbrev first_of : Option Shown → Option Shown → Option Shown
first_of (some s) o = some s
first_of none o = o

found_head :
    (t : ℕ) (all : Bool) (o : Option ActorState) (i id : ℕ) (rest : List ActorTransformSample)
    → ((a : ActorState) → o ≡ some a → a.actor_id ≡ i)
    → find_sample (found_sample t all o ++ rest) id
      ≡ (if i == id then first_of (pick all o) (find_sample rest id) else find_sample rest id)
unfolding find_sample
found_head t all none i id rest named = ground arith
found_head t all (some a) i id rest named = ground (arith, named a refl)

find_sample_nil : (id : ℕ) → find_sample [] id ≡ none
unfolding find_sample
find_sample_nil id = refl

pub samples_found :
    (t : ℕ) (all : Bool) (actors : Table ActorState) (ids : List ℕ) (id : ℕ)
    → IsNamed actors
    → find_sample (samples t all actors ids) id
      ≡ (if contains ids id then pick all (find_id actors id) else none)
unfolding samples
samples_found t all actors [] id named = find_sample_nil id
samples_found t all actors (i ∷ is) id named =
    let head = found_head t all (find_id actors i) i id (samples t all actors is) (named i) in
    let ih = samples_found t all actors is id named in
    elim (Bool-cases (i == id)) [
      | inl same ↦
          let e : i ≡ id = (==_iff i id).0 same in
          ground (arith, head, ih, same, ap (λ k. pick all (find_id actors k)) e)
      | inr differs ↦ ground (arith, head, ih, differs)
    ]

module _ (config : RuntimeConfig) (viewer : ActorState) (actors : Table ActorState) where
  -- The viewer's own actor and those near it exist.
  pub desired_found :
      find_id actors viewer.actor_id ≡ some viewer
      → (id : ℕ) → contains (desired_visible config viewer actors) id ≡ true
      → is_found (find_id actors id) ≡ true
  unfolding desired_visible
  desired_found own id h =
      let max = config.max_interest_recipients_per_tick in
      let near = near_ids config viewer (insert_id viewer.actor_id []) actors in
      let mine = λ (e : viewer.actor_id ≡ id). ap is_found (ap (find_id actors) (sym e) ∙ own) in
      ground (
        arith,
        h,
        contains-insert_id viewer.actor_id [] id,
        limit_ids_found max (insert_id viewer.actor_id []) near id,
        near_ids_found config viewer (insert_id viewer.actor_id []) actors id,
        (==_iff viewer.actor_id id).0,
        mine,
      )

-- A viewer is told of no removal of an actor that it goes on seeing, if no removed actor exists.
add_removed_found :
    (visible listed removed : List ℕ) (id : ℕ)
    → contains (add_removed visible listed removed) id ≡ true
    → (contains listed id || contains removed id) ≡ true
unfolding add_removed
add_removed_found visible listed [] id h = ground (arith, h)
add_removed_found visible listed (i ∷ is) id h =
    let next =
      if contains visible i && not (contains listed i) then listed ++ (i ∷ []) else listed in
    let ih = add_removed_found visible next is id h in
    ground (arith, ih, contains-append listed (i ∷ []) id)

pub removed_unseen :
    (visible desired removed : List ℕ) (id : ℕ)
    → contains desired id ≡ true
    → contains removed id ≡ false
    → contains (removed_for_viewer visible desired removed) id ≡ false
unfolding removed_for_viewer
removed_unseen visible desired removed id seen gone =
    let first = keep_if (λ i. not (contains desired i)) visible in
    ground (
      arith,
      seen,
      gone,
      add_removed_found visible first removed id,
      contains-keep_if (λ i. not (contains desired i)) visible id,
    )
