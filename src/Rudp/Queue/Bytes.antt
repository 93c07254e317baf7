-- ===== src/Rudp/Queue/Bytes.antt =====
-- The byte counter of the retransmission queue, which bounds what is in flight.
use dynaxis.Base.{
  ℕ, ◌+◌, ◌-◌, ◌^◌, ◌≤◌, ◌<◌, ◌≡◌, refl, sym, ◌∙◌, false, List, [], ◌∷◌, ◌++◌, map, arith, not, leb,
  if◌then◌else◌, u64, length, length-append, length-keep_if-le,
}
use dynaxis.Rudp.Queue.{
  Entry, RetransmissionQueue, frame_size, new_entry, push, pop_acked, count_bytes, unacked, sweep,
  erase_acked, mark_entry, mark_acked, collect, collect_timeouts, is_waiting,
}

abbrev pub total_bytes : List Entry → ℕ
total_bytes [] = 0
total_bytes (e ∷ es) = frame_size e + total_bytes es

-- No entry is marked, and the counter is the number of bytes held.
abbrev pub AllUnacked : List Entry → Type 0
AllUnacked [] = Unit {0}
AllUnacked (e ∷ es) = (e.acked ≡ false) × AllUnacked es

pub record IsValid (q : RetransmissionQueue) : Type 0 where
  pub unmarked : AllUnacked q.pending
  pub counted : q.inflight_bytes ≡ total_bytes q.pending
  pub fits : total_bytes q.pending < 2 ^ 64

total_bytes-append : (xs ys : List Entry) → total_bytes (xs ++ ys) ≡ total_bytes xs + total_bytes ys
total_bytes-append [] ys = omega arith
total_bytes-append (x ∷ xs) ys = omega (arith, total_bytes-append xs ys)

AllUnacked-append : (xs ys : List Entry) → AllUnacked xs → AllUnacked ys → AllUnacked (xs ++ ys)
AllUnacked-append [] ys h k = k
AllUnacked-append (x ∷ xs) ys h k = (h.0, AllUnacked-append xs ys h.1 k)

unacked-AllUnacked : (es : List Entry) → AllUnacked (unacked es)
unacked-AllUnacked [] = tt
unacked-AllUnacked (e ∷ es) = ground (arith, unacked-AllUnacked es)

total_bytes-unacked-le : (es : List Entry) → total_bytes (unacked es) ≤ total_bytes es
total_bytes-unacked-le [] = omega arith
total_bytes-unacked-le (e ∷ es) = ground (arith, total_bytes-unacked-le es)

total_bytes-mark :
    (n m : ℕ) (es : List Entry) → total_bytes (map (mark_entry n m) es) ≡ total_bytes es
unfolding mark_entry
total_bytes-mark n m [] = refl
total_bytes-mark n m (e ∷ es) = ground (arith, total_bytes-mark n m es)

unacked-pop_acked :
    (es : List Entry) (bytes : ℕ) → unacked (pop_acked es bytes).pending ≡ unacked es
unfolding pop_acked
unacked-pop_acked [] bytes = refl
unacked-pop_acked (e ∷ es) bytes =
    ground
      (arith, unacked-pop_acked es (if leb (frame_size e) bytes then bytes - frame_size e else 0))

-- What is popped at the front is taken off the counter.
pop_acked_counted :
    (es : List Entry) (bytes : ℕ)
    → bytes ≡ total_bytes es
    → (pop_acked es bytes).inflight_bytes ≡ total_bytes (pop_acked es bytes).pending
unfolding pop_acked
pop_acked_counted [] bytes h = h
pop_acked_counted (e ∷ es) bytes h =
    ground
      (arith, pop_acked_counted es (if leb (frame_size e) bytes then bytes - frame_size e else 0))

-- Where nothing is filtered out, the list is unchanged.
unacked_all : (es : List Entry) → length (unacked es) ≡ length es → unacked es ≡ es
unacked_all [] h = refl
unacked_all (e ∷ es) h = ground (arith, unacked_all es, length-keep_if-le (λ e. not e.acked) es)

count_bytes_lem :
    (es : List Entry) (bytes : ℕ)
    → bytes + total_bytes es < 2 ^ 64
    → count_bytes es bytes ≡ bytes + total_bytes es
unfolding count_bytes
count_bytes_lem [] bytes h = omega arith
count_bytes_lem (e ∷ es) bytes h = ground (arith, count_bytes_lem es (u64 (bytes + frame_size e)))

pending-sweep : (q : RetransmissionQueue) → (sweep q).pending ≡ unacked q.pending
unfolding sweep
pending-sweep q = ground arith

sweep_counted :
    (q : RetransmissionQueue)
    → q.inflight_bytes ≡ total_bytes q.pending
    → total_bytes (unacked q.pending) < 2 ^ 64
    → (sweep q).inflight_bytes ≡ total_bytes (sweep q).pending
unfolding sweep
sweep_counted q h fits =
    ground (arith, unacked_all q.pending, count_bytes_lem (unacked q.pending) 0)

-- The entries that `erase_acked` keeps, in order.
pub pending-erase_acked : (q : RetransmissionQueue) → (erase_acked q).pending ≡ unacked q.pending
unfolding erase_acked
pending-erase_acked q =
    pending-sweep (pop_acked q.pending q.inflight_bytes)
    ∙ unacked-pop_acked q.pending q.inflight_bytes

erase_acked-IsValid :
    (q : RetransmissionQueue)
    → q.inflight_bytes ≡ total_bytes q.pending
    → total_bytes q.pending < 2 ^ 64
    → IsValid (erase_acked q)
erase_acked-IsValid q h fits = record {
  unmarked = rw pending-erase_acked (unacked-AllUnacked q.pending);
  counted = counted;
  fits = rw pending-erase_acked (omega (arith, total_bytes-unacked-le q.pending));
}
  where
    popped : RetransmissionQueue
    popped = pop_acked q.pending q.inflight_bytes

    small : total_bytes (unacked popped.pending) < 2 ^ 64
    small =
        rw (unacked-pop_acked q.pending q.inflight_bytes)
          (omega (arith, total_bytes-unacked-le q.pending))

    counted : (erase_acked q).inflight_bytes ≡ total_bytes (erase_acked q).pending
    counted =
        unfold erase_acked in
        sweep_counted popped (pop_acked_counted q.pending q.inflight_bytes h) small

-- The counter stays the number of bytes held when a frame is queued that does not overflow it.
pub push-IsValid :
    (q : RetransmissionQueue) (number now : ℕ) (frame : List ℕ)
    → IsValid q
    → q.inflight_bytes + length frame < 2 ^ 64
    → IsValid (push q number now frame)
unfolding push
push-IsValid q number now frame v h =
    let e = new_entry number now frame in
    ground (
      arith,
      v.unmarked,
      total_bytes-append q.pending (e ∷ []),
      AllUnacked-append q.pending (e ∷ []) v.unmarked (refl, tt),
    )

pub mark_acked-IsValid :
    (q : RetransmissionQueue) (ack_largest ack_mask : ℕ)
    → IsValid q
    → IsValid (mark_acked q ack_largest ack_mask)
unfolding mark_acked
mark_acked-IsValid q n m v =
    erase_acked-IsValid _ (v.counted ∙ sym (total_bytes-mark n m q.pending))
      (rw total_bytes-mark v.fits)

collect_bytes :
    (now rto room : ℕ) (es : List Entry) → total_bytes (collect now rto room es).1 ≡ total_bytes es
unfolding collect
collect_bytes now rto room [] = refl
collect_bytes now rto room (e ∷ es) =
    ground (arith, collect_bytes now rto (if is_waiting now rto e then room else room - 1) es)

collect-AllUnacked :
    (now rto room : ℕ) (es : List Entry) → AllUnacked es → AllUnacked (collect now rto room es).1
unfolding collect
collect-AllUnacked now rto room [] h = tt
collect-AllUnacked now rto room (e ∷ es) h =
    ground
      (arith, collect-AllUnacked now rto (if is_waiting now rto e then room else room - 1) es h.1)

pub collect_timeouts-IsValid :
    (q : RetransmissionQueue) (now rto max_batch : ℕ)
    → IsValid q
    → IsValid (collect_timeouts q now rto max_batch).1
unfolding collect_timeouts
collect_timeouts-IsValid q now rto max_batch v = ground (
  arith,
  v.unmarked,
  collect_bytes now rto max_batch q.pending,
  collect-AllUnacked now rto max_batch q.pending v.unmarked,
)

length-mark : (n m : ℕ) (es : List Entry) → length (map (mark_entry n m) es) ≡ length es
length-mark n m [] = refl
length-mark n m (e ∷ es) = omega (arith, length-mark n m es)

-- An acknowledgement adds neither packets nor bytes.
pub mark_acked-shrinks :
    (q : RetransmissionQueue) (ack_largest ack_mask : ℕ)
    → (length (mark_acked q ack_largest ack_mask).pending ≤ length q.pending)
      × (total_bytes (mark_acked q ack_largest ack_mask).pending ≤ total_bytes q.pending)
unfolding mark_acked
mark_acked-shrinks q n m =
    let marked = map (mark_entry n m) q.pending in
    rw (pending-erase_acked (record q { pending = marked })) (
      omega (arith, length-keep_if-le (λ e. not e.acked) marked, length-mark n m q.pending),
      omega (arith, total_bytes-unacked-le marked, total_bytes-mark n m q.pending),
    )

length-collect :
    (now rto room : ℕ) (es : List Entry) → length (collect now rto room es).1 ≡ length es
unfolding collect
length-collect now rto room [] = refl
length-collect now rto room (e ∷ es) =
    ground (arith, length-collect now rto (if is_waiting now rto e then room else room - 1) es)

pub collect_timeouts-size :
    (q : RetransmissionQueue) (now rto max_batch : ℕ)
    → (length (collect_timeouts q now rto max_batch).1.pending ≡ length q.pending)
      × ((collect_timeouts q now rto max_batch).1.inflight_bytes ≡ q.inflight_bytes)
unfolding collect_timeouts
collect_timeouts-size q now rto max_batch =
    ground (arith, length-collect now rto max_batch q.pending)

pub push-size :
    (q : RetransmissionQueue) (number now : ℕ) (frame : List ℕ)
    → (length (push q number now frame).pending ≤ length q.pending + 1)
      × ((push q number now frame).inflight_bytes ≤ q.inflight_bytes + length frame)
unfolding push
push-size q number now frame =
    ground (arith, length-append q.pending (new_entry number now frame ∷ []))
