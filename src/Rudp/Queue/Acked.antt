-- ===== src/Rudp/Queue/Acked.antt =====
-- What an acknowledgement takes off the retransmission queue, and what the receiver's window says
-- of the packets that it takes off.
use dynaxis.Base.{
  ℕ, ◌+◌, ◌<◌, ◌≡◌, refl, ◌∙◌, Bool, List, [], ◌∷◌, map, arith, not, ◌||◌, leb, keep_if, contains,
  maximum,
}
use dynaxis.Rudp.AckWindow.{AckWindow, after}
use dynaxis.Rudp.AckWindow.Tracks.{Tracks, after-Tracks, seen_bit, contains_above, contains-maximum}
use dynaxis.Rudp.Queue.{
  Entry, RetransmissionQueue, is_acked_by_mask, unacked, mark_entry, mark_acked,
}
use dynaxis.Rudp.Queue.Bytes.{AllUnacked, IsValid, pending-erase_acked}

abbrev pub number_of : Entry → ℕ
number_of e = e.packet.packet_number

unacked-mark :
    (n m : ℕ) (es : List Entry)
    → AllUnacked es
    → unacked (map (mark_entry n m) es) ≡ keep_if (λ e. not (is_acked_by_mask (number_of e) n m)) es
unfolding mark_entry
unacked-mark n m [] h = refl
unacked-mark n m (e ∷ es) h = ground (arith, unacked-mark n m es h.1)

-- `mark_acked` keeps exactly the packets that the acknowledgement does not cover, unchanged and in
-- order.
pub pending-mark_acked :
    (q : RetransmissionQueue) (ack_largest ack_mask : ℕ)
    → IsValid q
    → (mark_acked q ack_largest ack_mask).pending
      ≡ keep_if (λ e. not (is_acked_by_mask (number_of e) ack_largest ack_mask)) q.pending
unfolding mark_acked
pending-mark_acked q n m v =
    pending-erase_acked (record q { pending = map (mark_entry n m) q.pending })
    ∙ unacked-mark n m q.pending v.unmarked

-- Covered by a history of received numbers: received, or 64 or more behind the largest.
abbrev pub covered : List ℕ → ℕ → Bool
covered seen n = contains seen n || leb (n + 64) (maximum seen)

Tracks-acked :
    (w : AckWindow) (seen : List ℕ) (n : ℕ)
    → 0 < n
    → Tracks w seen
    → is_acked_by_mask n w.largest w.mask ≡ covered seen n
unfolding is_acked_by_mask
Tracks-acked w [] n h t = ground (arith, t.top)
Tracks-acked w (x ∷ xs) n h t = ground (
  arith,
  t.top,
  seen_bit w.mask w.largest (x ∷ xs) t.bits n,
  contains_above (x ∷ xs) n,
  contains-maximum x xs,
)

-- The acknowledgement that a receiver's window reports covers a packet number (they begin at 1)
-- exactly if the receiver was given that number or is 64 or more past it.
pub is_acked_by_mask-after :
    (seen : List ℕ) (n : ℕ)
    → 0 < n
    → is_acked_by_mask n (after seen).largest (after seen).mask ≡ covered seen n
is_acked_by_mask-after seen n h = Tracks-acked (after seen) seen n h (after-Tracks seen)

abbrev pub Numbered : List Entry → Type 0
Numbered [] = Unit {0}
Numbered (e ∷ es) = (0 < number_of e) × Numbered es

keep_if-covered :
    (seen : List ℕ) (es : List Entry)
    → Numbered es
    → keep_if (λ e. not (is_acked_by_mask (number_of e) (after seen).largest (after seen).mask)) es
      ≡ keep_if (λ e. not (covered seen (number_of e))) es
keep_if-covered seen [] h = refl
keep_if-covered seen (e ∷ es) h =
    ground (arith, is_acked_by_mask-after seen (number_of e) h.0, keep_if-covered seen es h.1)

-- Across the two sides: an acknowledgement taken from the window of a receiver that was given the
-- numbers `seen` leaves in the sender's queue exactly the packets that the receiver was not given
-- and is less than 64 past, where
-- packet numbers begin at 1.
pub mark_acked-after :
    (q : RetransmissionQueue) (seen : List ℕ)
    → IsValid q
    → Numbered q.pending
    → (mark_acked q (after seen).largest (after seen).mask).pending
      ≡ keep_if (λ e. not (covered seen (number_of e))) q.pending
mark_acked-after q seen v h =
    pending-mark_acked q (after seen).largest (after seen).mask v ∙ keep_if-covered seen q.pending h
