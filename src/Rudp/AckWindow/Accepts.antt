-- ===== src/Rudp/AckWindow/Accepts.antt =====
-- What `AckWindow` answers, read off the list of the packet numbers given so far.
use dynaxis.Base.{
  ℕ, ◌+◌, ◌-◌, ◌≡◌, Bool, not, ◌&&◌, List, [], ◌∷◌, arith, ltb, if◌then◌else◌, is_empty, contains,
  maximum,
}
use dynaxis.Rudp.AckWindow.{AckWindow, observe, after}
use dynaxis.Rudp.AckWindow.Tracks.{Tracks, after-Tracks, seen_bit, contains_above, contains-maximum}

-- A number is fresh if it was not given before and is not 64 or more behind the largest.
abbrev pub is_fresh : List ℕ → ℕ → Bool
is_fresh seen n = not (contains seen n) && ltb (maximum seen) (n + 64)

pub record Classifies (seen : List ℕ) (n : ℕ) (w : AckWindow) : Type 0 where
  pub accepted : (observe w n).0.accepted ≡ is_fresh seen n
  pub duplicate : (observe w n).0.duplicate ≡ not (is_fresh seen n)
  pub reordered : (observe w n).0.reordered ≡ (is_fresh seen n && ltb n (maximum seen))
  pub lost :
      (observe w n).0.estimated_lost_packets ≡ (if is_empty seen then 0 else n - maximum seen - 1)
  pub largest : (observe w n).0.ack_largest ≡ maximum (n ∷ seen)

Tracks-Classifies : (w : AckWindow) (seen : List ℕ) (n : ℕ) → Tracks w seen → Classifies seen n w
unfolding observe
Tracks-Classifies w [] n t = ground (arith, t.started)
Tracks-Classifies w (x ∷ xs) n t =
    let near = seen_bit w.mask w.largest (x ∷ xs) t.bits n in
    let above = contains_above (x ∷ xs) n in
    record {
      accepted = ground (arith, t.started, t.top, near, above);
      duplicate = ground (arith, t.started, t.top, near, above);
      reordered = ground (arith, t.started, t.top, near, above, contains-maximum x xs);
      lost = ground (arith, t.started, t.top);
      largest = ground (arith, t.started, t.top);
    }

-- After any history, `observe` accepts a packet number exactly if it was never given before and is
-- less than 64 behind the largest; it reports a duplicate exactly otherwise, a reordering exactly
-- for an accepted number below the largest, as lost the numbers skipped since the largest, and the
-- new largest.
pub after-Classifies : (seen : List ℕ) (n : ℕ) → Classifies seen n (after seen)
after-Classifies seen n = Tracks-Classifies (after seen) seen n (after-Tracks seen)
