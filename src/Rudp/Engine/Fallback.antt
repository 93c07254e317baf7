-- ===== src/Rudp/Engine/Fallback.antt =====
-- When a datagram makes the engine give the session back to TCP, and what is left then.
use dynaxis.Base.{
  ◌&&◌, zero, suc, ℕ, ◌≡◌, refl, String, Bool, true, false, Option, none, some, List, [], arith,
  ◌==◌, not, ◌||◌, if◌then◌else◌,
}
use dynaxis.Rudp.Packet as Packet
use dynaxis.Rudp.Packet.{DecodeResult, decode_packet, looks_like_rudp}
use dynaxis.Rudp.Peer.{LifecycleState, is_established, mark_fallback}
use dynaxis.Rudp.Engine.State.{ProcessResult, no_result, Engine}
use dynaxis.Rudp.Engine.Process.{
  set_fallback, fail_handshake, receive_data, dispatch, is_mismatch, acknowledged, admit,
  process_datagram,
}

-- A packet that the switch answers itself.
abbrev pub is_control : DecodeResult → Bool
is_control d =
    d.header.kind == Packet.hello
    || (d.header.kind == Packet.hello_ack || d.header.kind == Packet.ping)

-- A packet that names a connection is of another one, if the engine has one. An engine that has none
-- takes any number, and number 0 goes for any connection.
abbrev pub is_of_another : ℕ → ℕ → Bool
is_of_another zero named = false
is_of_another (suc own) zero = false
is_of_another (suc own) (suc named) = not (own == named)

is_mismatch_lem :
    (e : Engine) (d : DecodeResult)
    → is_mismatch e d ≡ is_of_another e.state.connection_id d.header.connection_id
is_mismatch_lem e d = mismatched e.state.connection_id d.header.connection_id
  where
    mismatched :
        (own named : ℕ)
        → (not (own == 0) && (not (named == 0) && not (own == named))) ≡ is_of_another own named
    mismatched zero named = ground arith
    mismatched (suc own) zero = ground arith
    mismatched (suc own) (suc named) = ground arith

-- The reason for which a datagram ends the session, if it does.
abbrev pub fallback_of : Engine → List ℕ → Option String
fallback_of e datagram =
    let d = decode_packet datagram in
    if not (looks_like_rudp datagram)
    then none
    else if not d.accepted || not (d.header.version == 1)
    then some "invalid_rudp_packet"
    else if is_of_another e.state.connection_id d.header.connection_id
    then some "connection_id_mismatch"
    else if d.header.kind == Packet.close
    then some "peer_closed"
    else if is_control d || is_established e.state.lifecycle
    then none
    else some "rudp_not_established"

abbrev pub is_some : Option String → Bool
is_some none = false
is_some (some _) = true

abbrev pub text_of : Option String → String
text_of none = ""
text_of (some s) = s

-- What a call that falls back leaves behind.
pub record FellBack (e : Engine) (p : Engine × ProcessResult) : Type 0 where
  pub draining : p.0.state.lifecycle ≡ LifecycleState.draining
  pub latched : p.0.state.fallback_required ≡ true
  pub unread : p.1.inner_frames ≡ []
  pub unanswered : p.1.egress_datagrams ≡ []
  pub window : p.0.ack_window ≡ e.ack_window

abbrev Clean : ProcessResult → Type 0
Clean r =
    (r.fallback_required ≡ false)
    × (r.fallback_reason ≡ "")
    × (r.inner_frames ≡ [])
    × (r.egress_datagrams ≡ [])

module _ (moved_from : String → String) where
  abbrev Reports : Option String → Engine × ProcessResult → Type 0
  Reports fb p = (p.1.fallback_required ≡ is_some fb) × (p.1.fallback_reason ≡ text_of fb)

  receive_data-Reports :
      (e : Engine) (r : ProcessResult) (d : DecodeResult) (now : ℕ)
      → Clean r
      → Reports
          (if is_established e.state.lifecycle then none else some "rudp_not_established")
          (receive_data moved_from e r d now)
  unfolding receive_data fail_handshake set_fallback mark_fallback
  receive_data-Reports e r d now c = ground arith

  receive_data-FellBack :
      (e : Engine) (r : ProcessResult) (d : DecodeResult) (now : ℕ)
      → Clean r
      → (receive_data moved_from e r d now).1.fallback_required ≡ true
      → FellBack e (receive_data moved_from e r d now)
  unfolding receive_data fail_handshake set_fallback mark_fallback
  receive_data-FellBack e r d now c h = ground arith

  abbrev dispatch_reason : Engine → DecodeResult → Option String
  dispatch_reason e d =
      if d.header.kind == Packet.close
      then some "peer_closed"
      else if is_control d || is_established e.state.lifecycle
      then none
      else some "rudp_not_established"

  dispatch-Reports :
      (e : Engine) (r : ProcessResult) (d : DecodeResult) (now : ℕ)
      → Clean r
      → Reports (dispatch_reason e d) (dispatch moved_from e r d now)
  unfolding dispatch set_fallback mark_fallback
  dispatch-Reports e r d now c = ground (arith, receive_data-Reports e r d now c)

  dispatch-FellBack :
      (e : Engine) (r : ProcessResult) (d : DecodeResult) (now : ℕ)
      → Clean r
      → (dispatch moved_from e r d now).1.fallback_required ≡ true
      → FellBack e (dispatch moved_from e r d now)
  unfolding dispatch set_fallback mark_fallback
  dispatch-FellBack e r d now c h = ground (arith, receive_data-FellBack e r d now c)

  abbrev admit_reason : Engine → DecodeResult → Option String
  admit_reason e d = if is_mismatch e d then some "connection_id_mismatch" else dispatch_reason e d

  admit-Reports :
      (e : Engine) (r : ProcessResult) (d : DecodeResult) (now : ℕ)
      → Clean r
      → Reports (admit_reason e d) (admit moved_from e r d now)
  unfolding admit fail_handshake set_fallback mark_fallback
  admit-Reports e r d now c =
      ground (arith, dispatch-Reports (acknowledged e d now) (record r { parsed = true }) d now c)

  admit-FellBack :
      (e : Engine) (r : ProcessResult) (d : DecodeResult) (now : ℕ)
      → Clean r
      → (admit moved_from e r d now).1.fallback_required ≡ true
      → FellBack e (admit moved_from e r d now)
  unfolding admit fail_handshake set_fallback mark_fallback
  admit-FellBack e r d now c h =
      ground (arith, dispatch-FellBack (acknowledged e d now) (record r { parsed = true }) d now c)

  abbrev consumed : ProcessResult
  consumed = record no_result { consumed = true }

  clean : Clean consumed
  clean = (refl, refl, refl, refl)

  -- `process_datagram` asks for the fallback exactly for a datagram that is taken for RUDP and does not
  -- decode or has another version, names another connection than the engine's (a number 0 on either
  -- side names none), is a close, or is neither hello, hello-ack nor ping while the session is not
  -- established; it reports the reason of the first of these that holds.
  pub process_datagram-fallback :
      (e : Engine) (datagram : List ℕ) (now : ℕ)
      → ((process_datagram moved_from e datagram now).1.fallback_required
          ≡ is_some (fallback_of e datagram))
        × ((process_datagram moved_from e datagram now).1.fallback_reason
            ≡ text_of (fallback_of e datagram))
  unfolding process_datagram fail_handshake set_fallback mark_fallback
  process_datagram-fallback e datagram now = ground (
    arith,
    admit-Reports e consumed (decode_packet datagram) now clean,
    is_mismatch_lem e (decode_packet datagram),
  )

  -- Where it asks for the fallback, the session drains and stays marked, nothing is handed up or
  -- answered, and the window of received numbers is as before.
  pub process_datagram-FellBack :
      (e : Engine) (datagram : List ℕ) (now : ℕ)
      → (process_datagram moved_from e datagram now).1.fallback_required ≡ true
      → FellBack e (process_datagram moved_from e datagram now)
  unfolding process_datagram fail_handshake set_fallback mark_fallback
  process_datagram-FellBack e datagram now h =
      ground (arith, admit-FellBack e consumed (decode_packet datagram) now clean)
