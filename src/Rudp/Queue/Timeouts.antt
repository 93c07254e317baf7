-- ===== src/Rudp/Queue/Timeouts.antt =====
-- Which packets `collect_timeouts` hands out for sending again.
use dynaxis.Base.{
  ◌+◌, ◌%◌, ◌&&◌, All, leb, ◌∙◌, ℕ, suc, ◌-◌, ◌^◌, ◌≤◌, ◌<◌, ◌≡◌, ◌≢◌, refl, ap, zero, Bool, List,
  [], ◌∷◌, map, arith, not, ◌==◌, if◌then◌else◌, keep_if, length, take,
}
use dynaxis.Rudp.Queue.{
  PendingPacket, Entry, RetransmissionQueue, is_waiting, resend, collect, collect_timeouts,
}

-- The entries that are due, as they are sent again, in the code's words.
abbrev expired : ℕ → ℕ → List Entry → List PendingPacket
expired now rto es = map (λ e. resend now e.packet) (keep_if (λ e. not (is_waiting now rto e)) es)

take-pos :
    (room : ℕ) (x : PendingPacket) (xs : List PendingPacket)
    → room ≢ 0
    → take room (x ∷ xs) ≡ x ∷ take (room - 1) xs
take-pos zero x xs h = absurd (h refl)
take-pos (suc k) x xs h = ap (λ r. x ∷ take r xs) (omega arith)

take-zero : (xs : List PendingPacket) → take 0 xs ≡ []
take-zero xs = refl

collect_due :
    (now rto room : ℕ) (es : List Entry)
    → (collect now rto room es).0 ≡ take room (expired now rto es)
unfolding collect
collect_due now rto zero [] = refl
collect_due now rto (suc k) [] = refl
collect_due now rto room (e ∷ es) = ground (
  arith,
  collect_due now rto (if is_waiting now rto e then room else room - 1) es,
  take-pos room (resend now e.packet) (expired now rto es),
  take-zero (expired now rto (e ∷ es)),
)

-- What identifies an entry, and what an attempt to send it again must not change.
abbrev pub identity : Entry → ℕ × ℕ × List ℕ × Bool
identity e = (e.packet.packet_number, e.packet.first_sent_unix_ms, e.packet.encoded_frame, e.acked)

collect-identity :
    (now rto room : ℕ) (es : List Entry)
    → map identity (collect now rto room es).1 ≡ map identity es
unfolding collect
collect-identity now rto room [] = refl
collect-identity now rto room (e ∷ es) =
    ground (arith, collect-identity now rto (if is_waiting now rto e then room else room - 1) es)

collect_again :
    (now rto room : ℕ) (es : List Entry)
    → 0 < rto
    → now < 2 ^ 64
    → length (expired now rto es) ≤ room
    → expired now rto (collect now rto room es).1 ≡ []
unfolding collect
collect_again now rto room [] h small fits = refl
collect_again now rto room (e ∷ es) h small fits =
    ground
      (arith, collect_again now rto (if is_waiting now rto e then room else room - 1) es h small)

take-nil : (n : ℕ) → take {A = PendingPacket} n [] ≡ []
take-nil zero = refl
take-nil (suc n) = refl

eq-nil_of_length : (xs : List PendingPacket) → length xs ≤ 0 → xs ≡ []
eq-nil_of_length [] h = refl
eq-nil_of_length (x ∷ xs) h = absurd (omega arith)

-- A packet as it is sent again at `now`.
abbrev pub sent_again : ℕ → PendingPacket → PendingPacket
sent_again now p = record {
  packet_number = p.packet_number;
  first_sent_unix_ms = p.first_sent_unix_ms;
  last_sent_unix_ms = now;
  retransmit_count = (p.retransmit_count + 1) % 2 ^ 32;
  encoded_frame = p.encoded_frame;
}

-- The packets of the entries that are not marked and were last sent `rto` ago or earlier.
abbrev pub overdue : ℕ → ℕ → List Entry → List PendingPacket
overdue now rto [] = []
overdue now rto (e ∷ es) =
    let rest = overdue now rto es in
    if not e.acked && leb (e.packet.last_sent_unix_ms + rto) now
    then sent_again now e.packet ∷ rest
    else rest

-- The entries of which the first `room` that are overdue were sent again.
abbrev pub sent_up_to : ℕ → ℕ → ℕ → List Entry → List Entry
sent_up_to now rto room [] = []
sent_up_to now rto zero (e ∷ es) = e ∷ es
sent_up_to now rto (suc room) (e ∷ es) =
    let passed = e ∷ sent_up_to now rto (suc room) es in
    let sent = record e { packet = sent_again now e.packet } ∷ sent_up_to now rto room es in
    if not e.acked && leb (e.packet.last_sent_unix_ms + rto) now then sent else passed

abbrev pub WasSentBy : ℕ → Entry → Type 0
WasSentBy now e = e.packet.last_sent_unix_ms ≤ now

expired-overdue :
    (now rto : ℕ) (es : List Entry)
    → now < 2 ^ 64
    → All (WasSentBy now) es
    → expired now rto es ≡ overdue now rto es
expired-overdue now rto [] small sent = refl
expired-overdue now rto (e ∷ es) small sent =
    ground (arith, small, sent.0, expired-overdue now rto es small sent.1)

collect-sent_up_to :
    (now rto room : ℕ) (es : List Entry)
    → now < 2 ^ 64
    → All (WasSentBy now) es
    → (collect now rto room es).1 ≡ sent_up_to now rto room es
unfolding collect
collect-sent_up_to now rto room [] small sent = ground arith
collect-sent_up_to now rto zero (e ∷ es) small sent = refl
collect-sent_up_to now rto (suc room) (e ∷ es) small sent = ground (
  arith,
  small,
  sent.0,
  collect-sent_up_to now rto (suc room) es small sent.1,
  collect-sent_up_to now rto room es small sent.1,
)

sent_up_to-zero : (now rto : ℕ) (es : List Entry) → sent_up_to now rto 0 es ≡ es
sent_up_to-zero now rto [] = refl
sent_up_to-zero now rto (e ∷ es) = refl

collect_timeouts-sent_up_to :
    (q : RetransmissionQueue) (now rto max_batch : ℕ)
    → now < 2 ^ 64
    → All (WasSentBy now) q.pending
    → (collect_timeouts q now rto max_batch).1.pending
      ≡ (if rto == 0 then q.pending else sent_up_to now rto max_batch q.pending)
unfolding collect_timeouts
collect_timeouts-sent_up_to q now rto max_batch small sent = ground (
  arith,
  collect-sent_up_to now rto max_batch q.pending small sent,
  sent_up_to-zero now rto q.pending,
)

collect_timeouts-expired :
    (q : RetransmissionQueue) (now rto max_batch : ℕ)
    → ((collect_timeouts q now rto max_batch).0
        ≡ (if rto == 0 then [] else take max_batch (expired now rto q.pending)))
      × (map identity (collect_timeouts q now rto max_batch).1.pending ≡ map identity q.pending)
unfolding collect_timeouts
collect_timeouts-expired q now rto max_batch = ground (
  arith,
  collect_due now rto max_batch q.pending,
  collect-identity now rto max_batch q.pending,
  take-zero (expired now rto q.pending),
)

-- `collect_timeouts` hands out the first `max_batch` packets that are not marked and were last sent
-- `rto_ms` ago or earlier, with `now` as their send time and one more sending counted, and none where
-- `rto_ms` is 0. The entries of these packets are pending as they were sent again, all others as they
-- were, in the order they were in: no number, no first send time, no frame and no mark of any entry
-- changes. No entry was sent after `now`, which fits 64 bits.
pub collect_timeouts_lem :
    (q : RetransmissionQueue) (now rto max_batch : ℕ)
    → now < 2 ^ 64
    → All (WasSentBy now) q.pending
    → ((collect_timeouts q now rto max_batch).0
        ≡ (if rto == 0 then [] else take max_batch (overdue now rto q.pending)))
      × ((collect_timeouts q now rto max_batch).1.pending
          ≡ (if rto == 0 then q.pending else sent_up_to now rto max_batch q.pending))
      × (map identity (collect_timeouts q now rto max_batch).1.pending ≡ map identity q.pending)
collect_timeouts_lem q now rto max_batch small sent =
    let (out, same) = collect_timeouts-expired q now rto max_batch in
    (
      out
          ∙ ap (λ l. if rto == 0 then [] else take max_batch l)
              (expired-overdue now rto q.pending small sent),
      collect_timeouts-sent_up_to q now rto max_batch small sent,
      same,
    )

collect_timeouts_none :
    (q : RetransmissionQueue) (now rto max_batch : ℕ)
    → expired now rto q.pending ≡ []
    → (collect_timeouts q now rto max_batch).0 ≡ []
collect_timeouts_none q now rto max_batch h =
    ground (arith, (collect_timeouts-expired q now rto max_batch).0, take-nil max_batch)

collect_timeouts_quiet :
    (q : RetransmissionQueue) (now rto max_batch : ℕ)
    → 0 < rto
    → now < 2 ^ 64
    → length (expired now rto q.pending) ≤ max_batch
    → expired now rto (collect_timeouts q now rto max_batch).1.pending ≡ []
unfolding collect_timeouts
collect_timeouts_quiet q now rto max_batch h small fits = ground (
  arith,
  eq-nil_of_length (expired now rto q.pending),
  collect_again now rto max_batch q.pending h small,
)

-- Where all that is due fits one batch, a second call at the same time finds nothing due.
collect_timeouts_again :
    (q : RetransmissionQueue) (now rto max_batch more : ℕ)
    → 0 < rto
    → now < 2 ^ 64
    → length (expired now rto q.pending) ≤ max_batch
    → (collect_timeouts (collect_timeouts q now rto max_batch).1 now rto more).0 ≡ []
collect_timeouts_again q now rto max_batch more h small fits =
    collect_timeouts_none (collect_timeouts q now rto max_batch).1 now rto more
      (collect_timeouts_quiet q now rto max_batch h small fits)
