-- ===== src/Worlds/Transfer/Targets.antt =====
-- What the phases of a transfer say of the instances observed.
use dynaxis.Base.{
  ◌≡◌, refl, String, true, ◌⊎◌, inl, inr, List, [], ◌∷◌, ◌∙◌, arith, str_eq, Bool-cases,
}
use dynaxis.Worlds.Transfer.{
  ObservedWorldTransferInstance, ObservedWorldTransferState, WorldTransferSummary, note_instance,
  note_instances, transfer_phase, transfer_summary, evaluate_world_transfer, is_committed,
  first_summary,
}

-- Some instance of the given name is ready.
abbrev pub HasReady : String → List ObservedWorldTransferInstance → Type 0
HasReady name [] = ⊥
HasReady name (i ∷ is) = ((str_eq i.instance_id name ≡ true) × (i.ready ≡ true)) ⊎ HasReady name is

module _ (target : String) where
  finds_ready :
      (s : WorldTransferSummary) (is : List ObservedWorldTransferInstance)
      → (note_instances target s is).target_ready ≡ true
      → (s.target_ready ≡ true) ⊎ HasReady target is
  unfolding note_instances note_instance
  finds_ready s [] h = inl h
  finds_ready s (i ∷ is) h = elim (finds_ready (note_instance target s i) is h) [
    | inl found ↦ elim (Bool-cases (str_eq i.instance_id target)) [
      | inl same ↦ elim (Bool-cases i.ready) [
        | inl ready ↦ inr (inl (same, ready))
        | inr busy ↦ inl (ground (arith, found, same, busy))
      ]
      | inr differs ↦ inl (ground (arith, found, differs))
    ]
    | inr later ↦ inr (inr later)
  ]

  keeps_one :
      (s : WorldTransferSummary) (i : ObservedWorldTransferInstance)
      → (note_instance target s i).transfer_declared ≡ s.transfer_declared
  unfolding note_instance
  keeps_one s i = ground arith

  keeps_declared :
      (s : WorldTransferSummary) (is : List ObservedWorldTransferInstance)
      → (note_instances target s is).transfer_declared ≡ s.transfer_declared
  unfolding note_instances
  keeps_declared s [] = refl
  keeps_declared s (i ∷ is) = keeps_declared (note_instance target s i) is ∙ keeps_one s i

committed_phase :
    (s : WorldTransferSummary)
    → is_committed (transfer_phase s) ≡ true
    → (s.transfer_declared ≡ true) × (s.target_ready ≡ true) × (s.owner_matches_target ≡ true)
unfolding transfer_phase
committed_phase s h = (ground (arith, h), ground (arith, h), ground (arith, h))

-- What a committed transfer is: the world drains, its owner is the target, and the target is ready.
pub record IsCommitted (state : ObservedWorldTransferState) : Type 0 where
  pub draining : state.draining ≡ true
  pub handed_over : str_eq state.owner_instance_id state.replacement_owner_instance_id ≡ true
  pub ready : HasReady state.replacement_owner_instance_id state.instances

-- A transfer is judged to be committed only if the world is draining, its owner bears the name of
-- the replacement, and some instance of that name is ready.
pub evaluate_world_transfer-IsCommitted :
    (state : ObservedWorldTransferState)
    → is_committed (evaluate_world_transfer state).phase ≡ true
    → IsCommitted state
unfolding evaluate_world_transfer transfer_summary
evaluate_world_transfer-IsCommitted state h =
    let target = state.replacement_owner_instance_id in
    let first = first_summary state in
    let (declared, ready, matches) = committed_phase (transfer_summary state) h in
    let same = keeps_declared target first state.instances in
    record {
      draining = ground (arith, declared, same);
      handed_over = ground (arith, matches);
      ready = elim (finds_ready target first state.instances ready) [
        | inl impossible ↦ ground (arith, impossible)
        | inr found ↦ found
      ];
    }
