-- ===== src/Worlds/Drain/Drained.antt =====
-- What the phases of a drain say of the instances observed.
use dynaxis.Base.{
  ℕ, ◌+◌, ◌^◌, ◌<◌, ◌≡◌, refl, String, Bool, true, false, ◌⊎◌, inl, inr, List, [], ◌∷◌, arith,
  str_eq, u32, All, Bool-cases,
}
use dynaxis.Worlds.Transfer.{is_blank}
use dynaxis.Worlds.Drain.{
  ObservedWorldDrainInstance, ObservedWorldDrainState, WorldDrainSummary, note_instance,
  note_instances, first_summary, drain_summary, drain_phase, evaluate_world_drain, is_drained,
}

-- The sessions of all instances.
abbrev pub sessions : List ObservedWorldDrainInstance → ℕ
sessions [] = 0
sessions (i ∷ is) = i.active_sessions + sessions is

-- Some instance of the given name is ready.
abbrev pub HasReady : String → List ObservedWorldDrainInstance → Type 0
HasReady name [] = ⊥
HasReady name (i ∷ is) = ((str_eq i.instance_id name ≡ true) × (i.ready ≡ true)) ⊎ HasReady name is

abbrev pub IsEmpty : ObservedWorldDrainInstance → Type 0
IsEmpty i = i.active_sessions ≡ 0

sessions-zero : (is : List ObservedWorldDrainInstance) → sessions is ≡ 0 → All IsEmpty is
sessions-zero [] h = record {}
sessions-zero (i ∷ is) h = (omega arith, sessions-zero is (omega arith))

module _ (owner replacement : String) where
  counts_sessions :
      (s : WorldDrainSummary) (is : List ObservedWorldDrainInstance)
      → s.active_sessions_total + sessions is < 2 ^ 32
      → (note_instances owner replacement s is).active_sessions_total
        ≡ s.active_sessions_total + sessions is
  unfolding note_instances note_instance
  counts_sessions s [] h = omega arith
  counts_sessions s (i ∷ is) h =
      let next : u32 (s.active_sessions_total + i.active_sessions)
          ≡ s.active_sessions_total + i.active_sessions =
        omega arith in
      omega (
        arith,
        next,
        counts_sessions (note_instance owner replacement s i) is (omega (arith, next)),
      )

  keeps_declared :
      (s : WorldDrainSummary) (is : List ObservedWorldDrainInstance)
      → ((note_instances owner replacement s is).replacement_declared ≡ s.replacement_declared)
        × ((note_instances owner replacement s is).drain_declared ≡ s.drain_declared)
  unfolding note_instances note_instance
  keeps_declared s [] = (refl, refl)
  keeps_declared s (i ∷ is) = keeps_declared (note_instance owner replacement s i) is

  finds_ready :
      (s : WorldDrainSummary) (is : List ObservedWorldDrainInstance)
      → (note_instances owner replacement s is).replacement_ready ≡ true
      → (s.replacement_ready ≡ true) ⊎ HasReady replacement is
  unfolding note_instances note_instance
  finds_ready s [] h = inl h
  finds_ready s (i ∷ is) h = elim (finds_ready (note_instance owner replacement s i) is h) [
    | inl found ↦ elim (Bool-cases (str_eq i.instance_id replacement)) [
      | inl same ↦ elim (Bool-cases i.ready) [
        | inl ready ↦ inr (inl (same, ready))
        | inr busy ↦ inl (ground (arith, found, busy))
      ]
      | inr differs ↦ inl (ground (arith, found, differs))
    ]
    | inr later ↦ inr (inr later)
  ]

-- What a drained world is: draining, without sessions, and with a ready replacement if one is named.
pub record IsDrained (state : ObservedWorldDrainState) : Type 0 where
  pub draining : state.draining ≡ true
  pub empty : All IsEmpty state.instances
  pub replaced :
      is_blank state.replacement_owner_instance_id ≡ false
      → HasReady state.replacement_owner_instance_id state.instances

drained_phase :
    (draining : Bool) (s : WorldDrainSummary)
    → is_drained (drain_phase draining s) ≡ true
    → (draining ≡ true)
      × (s.active_sessions_total ≡ 0)
      × (s.replacement_declared ≡ true → s.replacement_ready ≡ true)
unfolding drain_phase
drained_phase draining s h = (ground (arith, h), ground (arith, h), λ d. ground (arith, h, d))

-- A drain is judged to be over only if the world is draining, no instance has a session, and some
-- instance that bears the name of the replacement is ready if one is named, where all sessions
-- together are below 2 ^ 32.
pub evaluate_world_drain-IsDrained :
    (state : ObservedWorldDrainState)
    → sessions state.instances < 2 ^ 32
    → is_drained (evaluate_world_drain state).phase ≡ true
    → IsDrained state
unfolding evaluate_world_drain drain_summary
evaluate_world_drain-IsDrained state few drained =
    let owner = state.owner_instance_id in
    let replacement = state.replacement_owner_instance_id in
    let first = first_summary state in
    let (draining, none_left, ready) = drained_phase state.draining (drain_summary state) drained in
    let total = counts_sessions owner replacement first state.instances (omega (arith, few)) in
    let declared = keeps_declared owner replacement first state.instances in
    record {
      draining = draining;
      empty = sessions-zero state.instances (omega (arith, total, none_left));
      replaced = λ named.
          elim (finds_ready owner replacement first state.instances
            (ready (ground (arith, declared.0, named)))) [
              | inl impossible ↦ ground (arith, impossible)
              | inr found ↦ found
            ];
    }
