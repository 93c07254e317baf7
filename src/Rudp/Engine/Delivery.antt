-- ===== src/Rudp/Engine/Delivery.antt =====
-- What the engine hands up, over any sequence of calls.
use dynaxis.Base.{
  ℕ, ◌≡◌, refl, sym, subst, ◌∙◌, String, Bool, true, false, List, [], ◌∷◌, arith, ◌==◌, not, ◌&&◌,
  if◌then◌else◌, is_empty, contains, three_ways, Option, none, some,
}
use dynaxis.Rudp.AckWindow.{AckWindow, observe, after}
use dynaxis.Rudp.AckWindow.Accepts.{after-Classifies}
use dynaxis.Rudp.Packet as Packet
use dynaxis.Rudp.Packet.{DecodeResult, decode_packet, looks_like_rudp}
use dynaxis.Rudp.Peer.{is_established, mark_fallback}
use dynaxis.Rudp.Engine.State.{ProcessResult, no_result, Engine, reset, make_hello, make_close}
use dynaxis.Rudp.Engine.Process.{
  set_fallback, fail_handshake, receive_data, dispatch, is_mismatch, acknowledged, admit,
  process_datagram,
}
use dynaxis.Rudp.Engine.Output.{poll, queue_reliable_payload, queue_unreliable_payload}
use dynaxis.Rudp.Engine.Calls.{
  Call, receives, polls, sends_reliable, sends_unreliable, greets, closes, resets, step,
}

-- Whether a decoded packet reaches the window of received numbers.
abbrev pub is_data : Engine → DecodeResult → Bool
is_data e d =
    not (d.header.kind == Packet.hello)
    && (not (d.header.kind == Packet.hello_ack)
        && (not (d.header.kind == Packet.close)
            && (not (d.header.kind == Packet.ping) && is_established e.state.lifecycle)))

abbrev pub is_heard : Engine → List ℕ → Bool
is_heard e datagram =
    let d = decode_packet datagram in
    looks_like_rudp datagram
    && (d.accepted && (d.header.version == 1 && (not (is_mismatch e d) && is_data e d)))

abbrev pub number_in : List ℕ → ℕ
number_in datagram = (decode_packet datagram).header.packet_number

abbrev watched : Bool → AckWindow → ℕ → AckWindow
watched heard w n = if heard then (observe w n).1 else w

abbrev handed : Bool → AckWindow → DecodeResult → List (List ℕ)
handed heard w d =
    if heard && ((observe w d.header.packet_number).0.accepted && not (is_empty d.payload))
    then d.payload ∷ []
    else []

-- The window and the frames of a call, for a packet of which `heard` says whether it is data.
abbrev Hands : Bool → AckWindow → DecodeResult → Engine × ProcessResult → Type 0
Hands heard w d p =
    (p.0.ack_window ≡ watched heard w d.header.packet_number)
    × (p.1.inner_frames ≡ handed heard w d)

-- What an engine does that matters here: it hands up the payload of a number, or is reset (`none`).
-- No number is among those seen, or handed up before since the last reset.
abbrev pub Fresh : List ℕ → List (Option ℕ) → Type 0
Fresh seen [] = Unit {0}
Fresh seen (none ∷ ns) = Fresh [] ns
Fresh seen (some n ∷ ns) = (contains seen n ≡ false) × Fresh (n ∷ seen) ns

Fresh-sub :
    (s t : List ℕ) (ns : List (Option ℕ))
    → ((a : ℕ) → contains s a ≡ true → contains t a ≡ true)
    → Fresh t ns
    → Fresh s ns
Fresh-sub s t [] sub f = tt
Fresh-sub s t (none ∷ ns) sub f = f
Fresh-sub s t (some n ∷ ns) sub f =
    (ground (arith, sub n), Fresh-sub (n ∷ s) (n ∷ t) ns (λ a h. ground (arith, sub a)) f.1)

abbrev pub number_of : Call → ℕ
number_of (receives datagram now) = number_in datagram
number_of _ = 0

abbrev next_seen : Engine → Call → List ℕ → List ℕ
next_seen e (receives datagram now) seen =
    if is_heard e datagram then number_in datagram ∷ seen else seen
next_seen e resets seen = []
next_seen e _ seen = seen

abbrev pub is_reset : Call → Bool
is_reset resets = true
is_reset _ = false

true-false : true ≡ false → ⊥
true-false h = cc

next_seen-sub :
    (e : Engine) (c : Call) (seen : List ℕ) (a : ℕ)
    → is_reset c ≡ false
    → contains seen a ≡ true
    → contains (next_seen e c seen) a ≡ true
next_seen-sub e (receives datagram now) seen a k h = ground arith
next_seen-sub e resets seen a k h = absurd (true-false k)
next_seen-sub e _ seen a k h = h

module _ (moved_from : String → String) where
  receive_data-Hands :
      (e : Engine) (r : ProcessResult) (d : DecodeResult) (now : ℕ)
      → r.inner_frames ≡ []
      → Hands (is_established e.state.lifecycle) e.ack_window d (receive_data moved_from e r d now)
  unfolding receive_data fail_handshake set_fallback mark_fallback
  receive_data-Hands e r d now c = ground arith

  dispatch-Hands :
      (e : Engine) (r : ProcessResult) (d : DecodeResult) (now : ℕ)
      → r.inner_frames ≡ []
      → Hands (is_data e d) e.ack_window d (dispatch moved_from e r d now)
  unfolding dispatch set_fallback mark_fallback
  dispatch-Hands e r d now c = ground (arith, receive_data-Hands e r d now c)

  admit-Hands :
      (e : Engine) (r : ProcessResult) (d : DecodeResult) (now : ℕ)
      → r.inner_frames ≡ []
      → Hands (not (is_mismatch e d) && is_data e d) e.ack_window d (admit moved_from e r d now)
  unfolding admit fail_handshake set_fallback mark_fallback
  admit-Hands e r d now c =
      ground (arith, dispatch-Hands (acknowledged e d now) (record r { parsed = true }) d now c)

  -- A datagram changes the window, and hands its payload up, only as a data packet of an established
  -- session that decodes; the payload goes up exactly if the window accepts its number and it is not
  -- empty.
  pub process_datagram-Hands :
      (e : Engine) (datagram : List ℕ) (now : ℕ)
      → Hands
          (is_heard e datagram)
          e.ack_window
          (decode_packet datagram)
          (process_datagram moved_from e datagram now)
  unfolding process_datagram fail_handshake set_fallback mark_fallback
  process_datagram-Hands e datagram now = ground (
    arith,
    admit-Hands e (record no_result { consumed = true }) (decode_packet datagram) now refl,
  )

  poll-window : (e : Engine) (now : ℕ) → (poll moved_from e now).0.ack_window ≡ e.ack_window
  unfolding poll set_fallback mark_fallback
  poll-window e now = ground arith

  poll-frames : (e : Engine) (now : ℕ) → is_empty (poll moved_from e now).1.inner_frames ≡ true
  unfolding poll set_fallback mark_fallback
  poll-frames e now = ground arith

  -- The numbers of the packets whose payload is handed up, and the resets, first to last.
  unfoldable pub deliveries : Engine → List Call → List (Option ℕ)
  deliveries e [] = []
  deliveries e (c ∷ cs) =
      let rest = deliveries (step moved_from e c).0 cs in
      if is_reset c
      then none ∷ rest
      else if is_empty (step moved_from e c).1.inner_frames
      then rest
      else some (number_of c) ∷ rest

  module _ (e : Engine) (seen : List ℕ) (h : e.ack_window ≡ after seen) where
    step-after : (c : Call) → (step moved_from e c).0.ack_window ≡ after (next_seen e c seen)
    unfolding step after queue_reliable_payload queue_unreliable_payload make_hello make_close reset
    step-after (receives datagram now) = ground (arith, process_datagram-Hands e datagram now)
    step-after (polls now) = poll-window e now ∙ h
    step-after (sends_reliable frame channel now) = ground arith
    step-after (sends_unreliable frame channel now) = ground arith
    step-after (greets connection_id now) = h
    step-after (closes now) = h
    step-after resets = refl

    step_new :
        (c : Call)
        → is_empty (step moved_from e c).1.inner_frames ≡ false
        → (contains seen (number_of c) ≡ false) × (next_seen e c seen ≡ number_of c ∷ seen)
    unfolding step
    step_new (receives datagram now) k =
        ground
          (arith, process_datagram-Hands e datagram now, after-Classifies seen (number_in datagram))
    step_new (polls now) k = absurd (true-false (sym (poll-frames e now) ∙ k))
    step_new (sends_reliable frame channel now) k = cc
    step_new (sends_unreliable frame channel now) k = cc
    step_new (greets connection_id now) k = cc
    step_new (closes now) k = cc
    step_new resets k = cc

  -- Over any sequence of calls, between two resets no payload is handed up twice for a number, nor,
  -- before the first, for one that the window was given earlier.
  pub deliveries-Fresh :
      (e : Engine) (seen : List ℕ) (cs : List Call)
      → e.ack_window ≡ after seen
      → Fresh seen (deliveries e cs)
  unfolding deliveries
  deliveries-Fresh e seen [] h = tt
  deliveries-Fresh e seen (c ∷ cs) h =
      let rest =
        deliveries-Fresh (step moved_from e c).0 (next_seen e c seen) cs (step-after e seen h c) in
      three_ways (Fresh seen) (is_reset c) (is_empty (step moved_from e c).1.inner_frames) _ _ _
        (λ anew. cleared c anew rest)
        (λ kept _.
          Fresh-sub seen (next_seen e c seen) (deliveries (step moved_from e c).0 cs)
            (λ a. next_seen-sub e c seen a kept) rest)
        (λ _ up. (
          (step_new e seen h c up).0,
          subst (λ s. Fresh s (deliveries (step moved_from e c).0 cs)) (step_new e seen h c up).1
              rest,
        ))
    where
      cleared :
          (c : Call)
          → is_reset c ≡ true
          → Fresh (next_seen e c seen) (deliveries (step moved_from e c).0 cs)
          → Fresh [] (deliveries (step moved_from e c).0 cs)
      cleared resets k f = f
      cleared (receives datagram now) k f = cc
      cleared (polls now) k f = cc
      cleared (sends_reliable frame channel now) k f = cc
      cleared (sends_unreliable frame channel now) k f = cc
      cleared (greets connection_id now) k f = cc
      cleared (closes now) k f = cc
