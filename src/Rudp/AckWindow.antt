-- ===== src/Rudp/AckWindow.antt =====
-- core/src/net/rudp/ack_window.cpp: which packet numbers a receiver has seen, as the largest one
-- and a mask of the 64 numbers up to it.
pub mod Tracks
pub mod Accepts
use dynaxis.Base.{
  ℕ, ◌+◌, ◌-◌, ◌*◌, ◌^◌, Bool, true, false, List, [], ◌∷◌, bit_and, bit_or, ltb, leb, ◌==◌, not,
  if◌then◌else◌, u64,
}

pub record AckObservation : Type 0 where
  pub accepted : Bool
  pub duplicate : Bool
  pub reordered : Bool
  pub estimated_lost_packets : ℕ
  pub ack_largest : ℕ
  pub ack_mask : ℕ

pub record AckWindow : Type 0 where
  pub initialized : Bool
  pub largest : ℕ
  pub mask : ℕ

abbrev pub initial : AckWindow
initial = record { initialized = false; largest = 0; mask = 0 }

abbrev pub reset : AckWindow → AckWindow
reset w = record w { initialized = false; largest = 0; mask = 0 }

-- A refusal: the window stays as it was, and its state is reported.
abbrev refuse : AckWindow → AckObservation × AckWindow
refuse w = (
  record {
    accepted = false;
    duplicate = true;
    reordered = false;
    estimated_lost_packets = 0;
    ack_largest = w.largest;
    ack_mask = w.mask;
  },
  w,
)

-- The new window, and what the observation says of it.
abbrev accept : AckWindow → Bool → ℕ → AckObservation × AckWindow
accept w reordered lost = (
  record {
    accepted = true;
    duplicate = false;
    reordered = reordered;
    estimated_lost_packets = lost;
    ack_largest = w.largest;
    ack_mask = w.mask;
  },
  w,
)

-- The mask after a step forward by `delta`.
abbrev pub shifted : ℕ → ℕ → ℕ
shifted mask delta = if leb 64 delta then 1 else bit_or (u64 (mask * 2 ^ delta)) 1

unfoldable pub observe : AckWindow → ℕ → AckObservation × AckWindow
observe w packet_number =
    let distance = w.largest - packet_number in
    let delta = packet_number - w.largest in
    if not w.initialized
    then accept (record { initialized = true; largest = packet_number; mask = 1 }) false 0
    else if ltb w.largest packet_number
    then accept (record w { largest = packet_number; mask = shifted w.mask delta }) false
        (if ltb 1 delta then delta - 1 else 0)
    else if leb 64 distance
    then refuse w
    else if not (bit_and w.mask (2 ^ distance) == 0)
    then refuse w
    else accept (record w { mask = bit_or w.mask (2 ^ distance) }) true 0

-- The window after a history of packet numbers, the newest first.
unfoldable pub after : List ℕ → AckWindow
after [] = initial
after (n ∷ ns) = (observe (after ns) n).1
