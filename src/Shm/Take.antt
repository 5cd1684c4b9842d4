-- ===== src/Shm/Take.antt =====
-- Taking messages from the queue of src/hyperamp_shm_queue.c: hyperamp_queue_dequeue and
-- hyperamp_queue_peek.
use high_speed_cproxy.Base.{
  ℕ, zero, suc, ◌+◌, ◌%◌, ◌≤◌, ◌<◌, ◌≡◌, refl, sym, ◌∙◌, subst, inl, inr, Bool-cases, false, Option,
  none, some, ◌>>=◌, List, [], ◌∷◌, arith, length, take, length-take-le, ◌==◌,
}
use high_speed_cproxy.Memory.{Memory, hyperamp_safe_memcpy}
use high_speed_cproxy.Memory.Copy.{
  Holds, Holds-take, hyperamp_safe_memcpy_ne, hyperamp_safe_memcpy_at, Holds-agree,
}
use high_speed_cproxy.Spinlock.{
  hyperamp_ok, hyperamp_error, hyperamp_again, hyperamp_spinlock_unlock,
}
use high_speed_cproxy.Shm.{
  Shm, slot_addr, next_index, lock_queue, unlock_queue, pop_tail, read_tail, read_len, set_len,
  Received, hyperamp_queue_dequeue, hyperamp_queue_peek, dequeue_locked, peek_locked,
}
use high_speed_cproxy.Shm.Bounds.{next_index-eq-mod, next_index-lt, slot_addr_bounds}
use high_speed_cproxy.Shm.Slots.{add-mod-suc}
use high_speed_cproxy.Shm.Fifo.{Rep, locked, lock_queue_lem, empty, not_empty, Rep-unlock}

module _ (virt_base : ℕ) (s : Shm) (m : List ℕ) (ms : List (List ℕ))
    (r : Rep virt_base s (m ∷ ms)) where
  -- The caller's buffer begins with the oldest message, cut to the buffer's length.
  read_tail-Holds :
      (buf : Memory) (max_len : ℕ) → Holds (read_tail s buf max_len virt_base) 0 (take max_len m)
  unfolding read_tail
  read_tail-Holds buf max_len =
      Holds-agree s.region a (hyperamp_safe_memcpy buf 0 s.region a n) 0 (take max_len m)
        (λ k l.
          hyperamp_safe_memcpy_at buf 0 s.region a n k (ground (arith, l, bound.0, bound.1, fit)))
        (Holds-take s.region a max_len m (
          subst (λ b. Holds s.region b m)
            (sym
              (slot_addr_bounds virt_base s.block_size s.capacity s.tail r.valid.tail_in
                r.valid.fits).0)
            r.slots.1))
    where
      a : ℕ
      a = slot_addr virt_base s.block_size s.tail

      n : ℕ
      n = read_len max_len s.block_size

      bound : (length (take max_len m) ≤ max_len) × (length (take max_len m) ≤ length m)
      bound = length-take-le max_len m

      fit : length m ≤ s.block_size
      fit = r.slots.0

  -- The queue after its oldest message is taken, its lock given back.
  pub popped-Rep :
      (zone_id t : ℕ)
      → t ≡ (s.tail + 1) % s.capacity
      → t < s.capacity
      → Rep virt_base (unlock_queue (pop_tail (locked s zone_id) t)) ms
  unfolding unlock_queue pop_tail hyperamp_spinlock_unlock
  popped-Rep zone_id t e l = record {
    valid = record {
      capacity_pos = r.valid.capacity_pos;
      capacity_u16 = r.valid.capacity_u16;
      header_in = r.valid.header_in;
      tail_in = l;
      fits = r.valid.fits;
      unlocked = refl;
    };
    room = omega (arith, r.room);
    place = rw e (r.place ∙ add-mod-suc s.capacity s.tail (length ms));
    slots = rw e r.slots.2;
  }

-- A dequeue with a buffer of at least one byte, from a valid queue, returns. If the queue holds a
-- message, it returns HYPERAMP_OK, the buffer begins with the oldest message, cut to the buffer's
-- length, the length that the caller asks for is the buffer's or the block's, the shorter, and the
-- queue then holds the other messages. If the queue is empty, it returns HYPERAMP_AGAIN, the buffer
-- and the length are as they were, and the queue is still empty.
pub dequeue_fifo :
    (virt_base : ℕ) (s : Shm) (ms : List (List ℕ)) (zone_id : ℕ) (buf : Memory) (max_len : ℕ)
    (actual_len : Option ℕ)
    → Rep virt_base s ms
    → 0 < max_len
    → ((m : List ℕ) (rest : List (List ℕ))
        → ms ≡ m ∷ rest
        → (s' : Shm) × (buf' : Memory) × (hyperamp_queue_dequeue s zone_id
              (some buf)
              max_len
              actual_len
              virt_base
            ≡ some (record {
              ret = hyperamp_ok;
              shm = s';
              buf = some buf';
              actual_len = set_len actual_len (read_len max_len s.block_size);
            }))
          × Holds buf' 0 (take max_len m)
          × Rep virt_base s' rest)
      × (ms ≡ []
          → (s' : Shm) × (hyperamp_queue_dequeue s zone_id (some buf) max_len actual_len virt_base
              ≡ some (record {
                ret = hyperamp_again;
                shm = s';
                buf = some buf;
                actual_len = actual_len;
              }))
            × Rep virt_base s' [])
unfolding hyperamp_queue_dequeue
dequeue_fifo virt_base s ms zone_id buf max_len actual_len r pos = (
  λ m rest e.
      let q : Rep virt_base s (m ∷ rest) = subst (Rep virt_base s) e r in
      let w : next_index s.capacity s.tail ≡ (s.tail + 1) % s.capacity =
        next_index-eq-mod s.capacity s.tail q.valid.tail_in q.valid.capacity_u16 in
      (
        unlock_queue (pop_tail (locked s zone_id) (next_index s.capacity s.tail)),
        read_tail s buf max_len virt_base,
        ground (
          arith,
          lock_queue_lem virt_base s zone_id r.valid,
          not_empty virt_base s (m ∷ rest) q (omega arith),
        ),
        read_tail-Holds virt_base s m rest q buf max_len,
        popped-Rep virt_base s m rest q zone_id (next_index s.capacity s.tail) w
            (next_index-lt s.capacity s.tail q.valid.tail_in q.valid.capacity_u16),
      ),
  λ e.
      let q : Rep virt_base s [] = subst (Rep virt_base s) e r in
      (
        unlock_queue (locked s zone_id),
        ground (arith, lock_queue_lem virt_base s zone_id r.valid, empty virt_base s [] q refl),
        Rep-unlock virt_base s [] zone_id q,
      ),
)

-- A peek with a buffer of at least one byte, at a valid queue, returns and leaves the queue's
-- messages as they were. If the queue holds a message, it returns HYPERAMP_OK and the buffer begins
-- with the oldest message, cut to the buffer's length. If the queue is empty, it returns
-- HYPERAMP_ERROR and the buffer is as it was.
pub peek_keeps :
    (virt_base : ℕ) (s : Shm) (ms : List (List ℕ)) (zone_id : ℕ) (buf : Memory) (max_len : ℕ)
    (actual_len : Option ℕ)
    → Rep virt_base s ms
    → 0 < max_len
    → (s' : Shm) × Rep virt_base s' ms
      × ((m : List ℕ) (rest : List (List ℕ))
          → ms ≡ m ∷ rest
          → (buf' : Memory) × (hyperamp_queue_peek s zone_id (some buf) max_len actual_len virt_base
              ≡ some (record {
                ret = hyperamp_ok;
                shm = s';
                buf = some buf';
                actual_len = set_len actual_len (read_len max_len s.block_size);
              }))
            × Holds buf' 0 (take max_len m))
      × (ms ≡ []
          → hyperamp_queue_peek s zone_id (some buf) max_len actual_len virt_base
            ≡ some (record {
              ret = hyperamp_error;
              shm = s';
              buf = some buf;
              actual_len = actual_len;
            }))
unfolding hyperamp_queue_peek
peek_keeps virt_base s ms zone_id buf max_len actual_len r pos = (
  unlock_queue (locked s zone_id),
  Rep-unlock virt_base s ms zone_id r,
  λ m rest e.
      let q : Rep virt_base s (m ∷ rest) = subst (Rep virt_base s) e r in
      (
        read_tail s buf max_len virt_base,
        ground (
          arith,
          lock_queue_lem virt_base s zone_id r.valid,
          not_empty virt_base s (m ∷ rest) q (omega arith),
        ),
        read_tail-Holds virt_base s m rest q buf max_len,
      ),
  λ e.
      ground
        (arith, lock_queue_lem virt_base s zone_id r.valid, empty virt_base s ms r (rw e refl)),
)

-- What a receiving call that returns has left: past the buffer's length, what was there.
abbrev pub Within : Option Memory → ℕ → Option Received → Type 0
Within buf n none = Unit
Within none n (some d) = (d.ret ≡ hyperamp_error) × (d.buf ≡ none)
Within (some m) n (some d) =
    (n ≡ 0 → d.ret ≡ hyperamp_error)
    × (w : Memory) × (d.buf ≡ some w)
    × ((j : ℕ) → n ≤ j → w j ≡ m j)

read_tail_ne :
    (s : Shm) (buf : Memory) (max_len virt_base j : ℕ)
    → max_len ≤ j
    → read_tail s buf max_len virt_base j ≡ buf j
unfolding read_tail
read_tail_ne s buf max_len virt_base j h =
    hyperamp_safe_memcpy_ne buf 0 s.region (slot_addr virt_base s.block_size s.tail)
      (read_len max_len s.block_size) j (inr (ground (arith, h)))

dequeue_locked-Within :
    (lock : Option Shm) (buf : Memory) (max_len : ℕ) (actual_len : Option ℕ) (virt_base : ℕ)
    → 0 < max_len
    → Within
        (some buf)
        max_len
        (lock >>= λ l. some (dequeue_locked l buf max_len actual_len virt_base))
unfolding dequeue_locked
dequeue_locked-Within none buf max_len actual_len virt_base h = tt
dequeue_locked-Within (some l) buf max_len actual_len virt_base h =
    elim (Bool-cases (l.tail == l.header)) [
      | inl e ↦ rw e (λ z. absurd (omega arith), buf, refl, λ j p. refl)
      | inr e ↦ rw e (
        λ z. absurd (omega arith),
        read_tail l buf max_len virt_base,
        refl,
        read_tail_ne l buf max_len virt_base,
      )
    ]

peek_locked-Within :
    (lock : Option Shm) (buf : Memory) (max_len : ℕ) (actual_len : Option ℕ) (virt_base : ℕ)
    → 0 < max_len
    → Within
        (some buf)
        max_len
        (lock >>= λ l. some (peek_locked l buf max_len actual_len virt_base))
unfolding peek_locked
peek_locked-Within none buf max_len actual_len virt_base h = tt
peek_locked-Within (some l) buf max_len actual_len virt_base h =
    elim (Bool-cases (l.tail == l.header)) [
      | inl e ↦ rw e (λ z. absurd (omega arith), buf, refl, λ j p. refl)
      | inr e ↦ rw e (
        λ z. absurd (omega arith),
        read_tail l buf max_len virt_base,
        refl,
        read_tail_ne l buf max_len virt_base,
      )
    ]

suc_test : (n : ℕ) → (suc n == 0) ≡ false
suc_test n = ground arith

-- Whatever the queue's state, a dequeue or a peek that returns has written no byte of the caller's
-- buffer at or past `max_len`, and with a NULL buffer or a length of 0 it returns HYPERAMP_ERROR.
receive-Within :
    (s : Shm) (zone_id : ℕ) (buf : Option Memory) (max_len : ℕ) (actual_len : Option ℕ)
    (virt_base : ℕ)
    → Within buf max_len (hyperamp_queue_dequeue s zone_id buf max_len actual_len virt_base)
      × Within buf max_len (hyperamp_queue_peek s zone_id buf max_len actual_len virt_base)
unfolding hyperamp_queue_dequeue hyperamp_queue_peek
receive-Within s zone_id none max_len actual_len virt_base = ((refl, refl), (refl, refl))
receive-Within s zone_id (some buf) zero actual_len virt_base =
    ((λ z. refl, buf, refl, λ j p. refl), (λ z. refl, buf, refl, λ j p. refl))
receive-Within s zone_id (some buf) (suc n) actual_len virt_base = rw (suc_test n) (
  dequeue_locked-Within (lock_queue s zone_id) buf (suc n) actual_len virt_base (omega arith),
  peek_locked-Within (lock_queue s zone_id) buf (suc n) actual_len virt_base (omega arith),
)
