-- ===== src/Realtime/TransportQuality/Accounts.antt =====
-- What `UdpSequencedMetrics` reports, read off the packets received so far.
use dynaxis.Base.{
  ℕ, ◌-◌, ◌^◌, ◌<◌, ◌≡◌, refl, true, not, ◌&&◌, List, [], ◌∷◌, arith, is_empty, ltb, ◌==◌,
  if◌then◌else◌,
}
use dynaxis.Realtime.TransportQuality.{
  UpdateResult, UdpSequencedMetrics, initial, on_packet, lost_between,
}

-- The metrics after packets, the newest first, each with the time it was received.
unfoldable pub after : List (ℕ × ℕ) → UdpSequencedMetrics
after [] = initial
after (p ∷ ps) = (on_packet (after ps) p.0 p.1).1

abbrev pub highest : List (ℕ × ℕ) → ℕ
highest [] = 0
highest (p ∷ ps) = let m = highest ps in if ltb m p.0 then p.0 else m

record Follows (m : UdpSequencedMetrics) (ps : List (ℕ × ℕ)) : Type 0 where
  started : m.initialized ≡ not (is_empty ps)
  top : m.last_seq ≡ highest ps

on_packet-Follows :
    (m : UdpSequencedMetrics) (ps : List (ℕ × ℕ)) (seq recv : ℕ)
    → Follows m ps
    → Follows (on_packet m seq recv).1 ((seq, recv) ∷ ps)
unfolding on_packet
on_packet-Follows m [] seq recv f = record {
  started = ground (arith, f.started);
  top = ground (arith, f.started);
}
on_packet-Follows m (p ∷ ps) seq recv f = record {
  started = ground (arith, f.started);
  top = ground (arith, f.started, f.top);
}

after-Follows : (ps : List (ℕ × ℕ)) → Follows (after ps) ps
unfolding after
after-Follows [] = record { started = refl; top = refl }
after-Follows (p ∷ ps) = on_packet-Follows (after ps) ps p.0 p.1 (after-Follows ps)

lost_between_lem :
    (last seq : ℕ) → last < seq → seq < 2 ^ 32 → lost_between last seq ≡ seq - last - 1
unfolding lost_between
lost_between_lem last seq h narrow = ground arith

-- The answer to a packet, where `ps` were received before.
pub record Reports (ps : List (ℕ × ℕ)) (seq : ℕ) (r : UpdateResult) : Type 0 where
  pub accepted : r.accepted ≡ (if is_empty ps then true else ltb (highest ps) seq)
  pub duplicate : r.duplicate ≡ (not (is_empty ps) && (seq == highest ps))
  pub reordered : r.reordered ≡ (not (is_empty ps) && ltb seq (highest ps))
  pub lost : r.estimated_lost_packets ≡ (if is_empty ps then 0 else seq - highest ps - 1)

Follows-Reports :
    (m : UdpSequencedMetrics) (ps : List (ℕ × ℕ)) (seq recv : ℕ)
    → seq < 2 ^ 32
    → Follows m ps
    → Reports ps seq (on_packet m seq recv).0
unfolding on_packet
Follows-Reports m [] seq recv narrow f = record {
  accepted = ground (arith, f.started);
  duplicate = ground (arith, f.started);
  reordered = ground (arith, f.started);
  lost = ground (arith, f.started);
}
Follows-Reports m (p ∷ ps) seq recv narrow f = record {
  accepted = ground (arith, f.started, f.top);
  duplicate = ground (arith, f.started, f.top);
  reordered = ground (arith, f.started, f.top);
  lost = ground (arith, f.started, f.top, lost_between_lem m.last_seq seq);
}

-- After any packets received, a packet with a number of 32 bits is accepted exactly if it is the
-- first or its number is above all before, called a duplicate exactly if its number is the highest
-- so far and reordered exactly if it is lower, and the loss reported is the count of the numbers
-- skipped since the highest.
pub on_packet-Reports :
    (ps : List (ℕ × ℕ)) (seq recv : ℕ)
    → seq < 2 ^ 32
    → Reports ps seq (on_packet (after ps) seq recv).0
on_packet-Reports ps seq recv narrow =
    Follows-Reports (after ps) ps seq recv narrow (after-Follows ps)
