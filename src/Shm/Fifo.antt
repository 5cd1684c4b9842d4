-- ===== src/Shm/Fifo.antt =====
-- The queue operations of src/hyperamp_shm_queue.c implement a bounded first-in first-out queue of
-- messages.
use native.Mathlib.Nat.{mod-add-mod, mod-eq_of_lt, mod-eq-sub-mod, add-zero}
use high_speed_cproxy.Base.{
  ℕ, suc, ◌+◌, ◌-◌, ◌*◌, ◌%◌, ◌≤◌, ◌<◌, ◌≡◌, ◌≢◌, refl, sym, ap, ◌∙◌, subst, some, List, [], ◌∷◌,
  ◌++◌, arith, length, length-append, dec_lt,
}
use high_speed_cproxy.Memory.{Memory, hyperamp_safe_memcpy}
use high_speed_cproxy.Memory.Copy.{
  Holds, bytes, length-bytes, hyperamp_safe_memcpy-Holds, hyperamp_safe_memcpy_ne,
}
use high_speed_cproxy.Spinlock.{
  hyperamp_ok, hyperamp_again, acquire, hyperamp_spinlock_lock, hyperamp_spinlock_unlock,
}
use high_speed_cproxy.Shm.{
  Shm, slot_addr, next_index, lock_queue, unlock_queue, push_header, hyperamp_queue_enqueue,
}
use high_speed_cproxy.Shm.Bounds.{IsValid, next_index-eq-mod, next_index-lt, slot_addr_bounds}
use high_speed_cproxy.Shm.Slots.{Slots, Slots-agree, Slots-append}

-- The queue is valid and holds these messages, oldest first: each one is the beginning of the block
-- in its slot.
pub record Rep (virt_base : ℕ) (s : Shm) (ms : List (List ℕ)) : Type 0 where
  pub valid : IsValid virt_base s
  pub room : length ms < s.capacity
  pub place : s.header ≡ (s.tail + length ms) % s.capacity
  pub slots : Slots virt_base s.block_size s.capacity s.region s.tail ms

-- The state inside the critical section.
abbrev pub locked : Shm → ℕ → Shm
locked s zone_id = record s {
  queue = record (s.queue) { queue_lock = acquire s.queue_lock zone_id };
}

pub lock_queue_lem :
    (virt_base : ℕ) (s : Shm) (zone_id : ℕ)
    → IsValid virt_base s
    → lock_queue s zone_id ≡ some (locked s zone_id)
unfolding lock_queue hyperamp_spinlock_lock
lock_queue_lem virt_base s zone_id v = rw v.unlocked

-- The block that an enqueue writes, in place.
abbrev pub pushed : ℕ → Shm → Memory → ℕ → Shm
pushed virt_base s buf len = record s {
  region = hyperamp_safe_memcpy s.region (slot_addr virt_base s.block_size s.header) buf 0 len;
}

-- Going n < cap steps from t comes back to t only for n = 0.
mod_start : (cap t n : ℕ) → t < cap → n < cap → (t + n) % cap ≡ t → n ≡ 0
mod_start cap t n ht hn e = elim (dec_lt (t + n) cap) [
  | yes p ↦ omega (arith, mod-eq_of_lt p)
  | no p ↦ omega (
    arith,
    mod-eq-sub-mod {n = t + n} {m = cap} (omega arith),
    mod-eq_of_lt {n = t + n - cap} {m = cap} (omega arith),
  )
]

module _ (virt_base : ℕ) (s : Shm) (ms : List (List ℕ)) (r : Rep virt_base s ms) where
  pub next_header : next_index s.capacity s.header ≡ (s.tail + suc (length ms)) % s.capacity
  next_header =
      next_index-eq-mod s.capacity s.header r.valid.header_in r.valid.capacity_u16
      ∙ rw (r.place, mod-add-mod) (ap (λ k. k % s.capacity) (omega arith))

  pub not_full : length ms + 1 < s.capacity → next_index s.capacity s.header ≢ s.tail
  not_full h e = absurd (
      omega (
        arith,
        mod_start s.capacity s.tail (suc (length ms)) r.valid.tail_in (omega arith)
            (sym next_header ∙ e),
      ))

  pub full : length ms + 1 ≡ s.capacity → next_index s.capacity s.header ≡ s.tail
  full h =
      next_header
      ∙ rw (mod-eq-sub-mod {n = s.tail + suc (length ms)} {m = s.capacity} (omega arith))
          (mod-eq_of_lt (omega arith) ∙ omega arith)

  pub empty : length ms ≡ 0 → s.tail ≡ s.header
  empty h = sym (r.place ∙ rw (h, add-zero) (mod-eq_of_lt r.valid.tail_in))

  pub not_empty : 0 < length ms → s.tail ≢ s.header
  not_empty h e = absurd (
      omega (
        arith,
        mod_start s.capacity s.tail (length ms) r.valid.tail_in r.room (sym r.place ∙ sym e),
      ))

  -- A block written into the slot at `header` is the new last message.
  pushed-Slots :
      (buf : Memory) (len : ℕ)
      → len ≤ s.block_size
      → Slots virt_base s.block_size s.capacity
          (pushed virt_base s buf len).region
          s.tail
          (ms ++ (bytes buf 0 len ∷ []))
  pushed-Slots buf len h =
      Slots-append virt_base s.block_size s.capacity w s.header s.tail ms (bytes buf 0 len)
        r.valid.tail_in r.place
        (Slots-agree virt_base s.block_size s.capacity s.region w s.header s.tail ms
          (λ j d. hyperamp_safe_memcpy_ne s.region a buf 0 len j (omega (arith, at.0)))
          r.valid.tail_in r.room r.place r.slots)
        (omega (arith, length-bytes buf 0 len))
        (subst (λ b. Holds w b (bytes buf 0 len)) at.0
          (hyperamp_safe_memcpy-Holds s.region a buf 0 len))
    where
      a : ℕ
      a = slot_addr virt_base s.block_size s.header

      at :
          (a ≡ virt_base + (s.header + 1) * s.block_size)
          × (a + s.block_size ≤ virt_base + (s.capacity + 1) * s.block_size)
      at =
          slot_addr_bounds virt_base s.block_size s.capacity s.header r.valid.header_in r.valid.fits

      w : Memory
      w = hyperamp_safe_memcpy s.region a buf 0 len

pub length-snoc {ℓ} : {A : Type ℓ} (xs : List A) (x : A) → length (xs ++ (x ∷ [])) ≡ suc (length xs)
length-snoc xs x = omega (arith, length-append xs (x ∷ []))

-- Taking the lock and giving it back changes no message.
pub Rep-unlock :
    (virt_base : ℕ) (s : Shm) (ms : List (List ℕ)) (zone_id : ℕ)
    → Rep virt_base s ms
    → Rep virt_base (unlock_queue (locked s zone_id)) ms
unfolding unlock_queue hyperamp_spinlock_unlock
Rep-unlock virt_base s ms zone_id r = record {
  valid = record {
    capacity_pos = r.valid.capacity_pos;
    capacity_u16 = r.valid.capacity_u16;
    header_in = r.valid.header_in;
    tail_in = r.valid.tail_in;
    fits = r.valid.fits;
    unlocked = refl;
  };
  room = r.room;
  place = r.place;
  slots = r.slots;
}

-- An enqueue of 1 to block_size bytes into a valid queue returns. If the queue has room for one more
-- message it returns HYPERAMP_OK, and the queue then holds its messages followed by the bytes of the
-- caller's buffer. If it is full (capacity - 1 messages) it returns HYPERAMP_AGAIN, and the queue holds
-- the messages that it held. Either way the block size and the capacity stay the same.
pub enqueue_fifo :
    (virt_base : ℕ) (s : Shm) (ms : List (List ℕ)) (zone_id : ℕ) (buf : Memory) (len : ℕ)
    → Rep virt_base s ms
    → 0 < len
    → len ≤ s.block_size
    → (length ms + 1 < s.capacity
        → (s' : Shm) × (hyperamp_queue_enqueue s zone_id (some buf) len virt_base
            ≡ some (hyperamp_ok, s'))
          × Rep virt_base s' (ms ++ (bytes buf 0 len ∷ []))
          × (s'.block_size ≡ s.block_size)
          × (s'.capacity ≡ s.capacity))
      × (length ms + 1 ≡ s.capacity
          → (s' : Shm) × (hyperamp_queue_enqueue s zone_id (some buf) len virt_base
              ≡ some (hyperamp_again, s'))
            × Rep virt_base s' ms
            × (s'.block_size ≡ s.block_size)
            × (s'.capacity ≡ s.capacity))
unfolding hyperamp_queue_enqueue hyperamp_spinlock_lock hyperamp_spinlock_unlock acquire
enqueue_fifo virt_base s ms zone_id buf len r pos fits = (
  λ h. (
    unlock_queue (
        push_header (locked (pushed virt_base s buf len) zone_id) (next_index s.capacity s.header)),
    ground (arith, lock_queue_lem virt_base s zone_id r.valid, not_full virt_base s ms r h),
    record {
      valid = record {
        capacity_pos = r.valid.capacity_pos;
        capacity_u16 = r.valid.capacity_u16;
        header_in = next_index-lt s.capacity s.header r.valid.header_in r.valid.capacity_u16;
        tail_in = r.valid.tail_in;
        fits = r.valid.fits;
        unlocked = refl;
      };
      room = omega (arith, length-append ms (bytes buf 0 len ∷ []));
      place = rw (length-snoc ms (bytes buf 0 len)) (next_header virt_base s ms r);
      slots = pushed-Slots virt_base s ms r buf len fits;
    },
    refl,
    refl,
  ),
  λ h. (
    unlock_queue (locked s zone_id),
    ground (arith, lock_queue_lem virt_base s zone_id r.valid, full virt_base s ms r h),
    Rep-unlock virt_base s ms zone_id r,
    refl,
    refl,
  ),
)
