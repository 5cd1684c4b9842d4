-- ===== src/Shm/ZeroCopy.antt =====
-- The zero-copy calls of src/hyperamp_shm_queue.c, hyperamp_queue_alloc_slot and
-- hyperamp_queue_release_slot, against the copying ones.
use native.Mathlib.Nat.{mod-eq_of_lt}
use high_speed_cproxy.Base.{
  ℕ, ◌+◌, ◌*◌, ◌%◌, ◌^◌, ◌≤◌, ◌<◌, ◌≡◌, refl, sym, ◌∙◌, subst, subst₂, ◌⊎◌, true, none, some, List,
  [], ◌∷◌, ◌++◌, arith, length, length-append,
}
use high_speed_cproxy.Memory.Copy.{Holds}
use high_speed_cproxy.Spinlock.{hyperamp_ok, hyperamp_error, hyperamp_spinlock_unlock}
use high_speed_cproxy.Shm.{
  Shm, slot_addr, next_index, unlock_queue, push_header, pop_tail, hyperamp_queue_alloc_slot,
  hyperamp_queue_release_slot,
}
use high_speed_cproxy.Shm.Bounds.{next_index-eq-mod, next_index-lt, slot_addr_bounds}
use high_speed_cproxy.Shm.Slots.{Slots-agree, Slots-append}
use high_speed_cproxy.Shm.Fifo.{
  Rep, locked, lock_queue_lem, next_header, empty, not_empty, full, not_full, Rep-unlock,
  length-snoc,
}
use high_speed_cproxy.Shm.Take.{popped-Rep}

-- The state after the caller has filled the slot it was given: only bytes of that block differ.
pub record Filled (a n : ℕ) (s w : Shm) (x : List ℕ) : Type 0 where
  pub same : s.queue ≡ w.queue
  pub outside : (j : ℕ) → (j < a) ⊎ (a + n ≤ j) → w.region j ≡ s.region j
  pub short : length x ≤ n
  pub filled : Holds w.region a x

mod_twice : (h cap : ℕ) → 0 < cap → cap < 2 ^ 16 → (h + 1) % cap % 2 ^ 16 ≡ (h + 1) % cap
mod_twice h cap p q = mod-eq_of_lt (omega arith)

slot_low : (b n i : ℕ) → b + n ≤ b + (i + 1) * n
slot_low b n i = grind arith

module _ (virt_base : ℕ) (s : Shm) (ms : List (List ℕ)) (r : Rep virt_base s ms) where
  abbrev at_header : ℕ
  at_header = virt_base + (s.header + 1) * s.block_size

  next_header_mod : (s.header + 1) % s.capacity % 2 ^ 16 ≡ next_index s.capacity s.header
  next_header_mod =
      mod_twice s.header s.capacity r.valid.capacity_pos r.valid.capacity_u16
      ∙ sym (next_index-eq-mod s.capacity s.header r.valid.header_in r.valid.capacity_u16)

  -- The queue once the caller has filled the block it was given.
  Filled-Rep :
      (zone_id : ℕ) (w : Shm) (x : List ℕ)
      → length ms + 1 < s.capacity
      → Filled at_header s.block_size
          (unlock_queue (push_header (locked s zone_id) (next_index s.capacity s.header)))
          w
          x
      → Rep virt_base w (ms ++ (x ∷ []))
  unfolding unlock_queue push_header hyperamp_spinlock_unlock
  Filled-Rep zone_id w x h f =
      subst (λ q. Rep virt_base (record { queue = q; region = w.region }) (ms ++ (x ∷ []))) f.same
        (record {
          valid = record {
            capacity_pos = r.valid.capacity_pos;
            capacity_u16 = r.valid.capacity_u16;
            header_in = next_index-lt s.capacity s.header r.valid.header_in r.valid.capacity_u16;
            tail_in = r.valid.tail_in;
            fits = r.valid.fits;
            unlocked = refl;
          };
          room = omega (arith, length-append ms (x ∷ []));
          place = rw (length-snoc ms x) (next_header virt_base s ms r);
          slots =
              Slots-append virt_base s.block_size s.capacity w.region s.header s.tail ms x
                r.valid.tail_in r.place
                (Slots-agree virt_base s.block_size s.capacity s.region w.region s.header s.tail ms
                  f.outside r.valid.tail_in r.room r.place r.slots)
                f.short f.filled;
        })

-- A slot allocation on a valid queue returns. If the queue has room for one more message, it returns
-- HYPERAMP_OK and the address of a block that lies in the data region, and once the caller has
-- filled that block and nothing else, the queue holds its messages followed by the new one. If the
-- queue is full, it returns HYPERAMP_ERROR and stores no address, and the queue holds its messages.
pub alloc_fifo :
    (virt_base : ℕ) (s : Shm) (ms : List (List ℕ)) (zone_id : ℕ)
    → Rep virt_base s ms
    → (length ms + 1 < s.capacity
        → (s' : Shm) × (a : ℕ) × (hyperamp_queue_alloc_slot s zone_id true virt_base
            ≡ some (hyperamp_ok, s', some a))
          × (virt_base + s.block_size ≤ a)
          × (a + s.block_size ≤ virt_base + (s.capacity + 1) * s.block_size)
          × ((w : Shm) (x : List ℕ)
              → Filled a s.block_size s' w x
              → Rep virt_base w (ms ++ (x ∷ []))))
      × (length ms + 1 ≡ s.capacity
          → (s' : Shm) × (hyperamp_queue_alloc_slot s zone_id true virt_base
              ≡ some (hyperamp_error, s', none))
            × Rep virt_base s' ms)
unfolding hyperamp_queue_alloc_slot
alloc_fifo virt_base s ms zone_id r = (
  λ h. (
    unlock_queue (push_header (locked s zone_id) ((s.header + 1) % s.capacity % 2 ^ 16)),
    slot_addr virt_base s.block_size s.header,
    ground (
      arith,
      lock_queue_lem virt_base s zone_id r.valid,
      next_header_mod virt_base s ms r,
      not_full virt_base s ms r h,
    ),
    omega (arith, at.0, slot_low virt_base s.block_size s.header),
    at.1,
    λ w x f. Filled-Rep virt_base s ms r zone_id w x h (
        subst₂ (λ a n. Filled a s.block_size (unlock_queue (push_header (locked s zone_id) n)) w x)
          at.0 (next_header_mod virt_base s ms r) f),
  ),
  λ h. (
    unlock_queue (locked s zone_id),
    ground (
      arith,
      lock_queue_lem virt_base s zone_id r.valid,
      next_header_mod virt_base s ms r,
      full virt_base s ms r h,
    ),
    Rep-unlock virt_base s ms zone_id r,
  ),
)
  where
    at :
        (slot_addr virt_base s.block_size s.header ≡ virt_base + (s.header + 1) * s.block_size)
        × (slot_addr virt_base s.block_size s.header + s.block_size
            ≤ virt_base + (s.capacity + 1) * s.block_size)
    at = slot_addr_bounds virt_base s.block_size s.capacity s.header r.valid.header_in r.valid.fits

-- A slot release on a valid queue returns. If the queue holds a message, it returns HYPERAMP_OK and
-- the queue then holds the other messages; if it is empty, it returns HYPERAMP_ERROR and the queue
-- is still empty.
pub release_fifo :
    (virt_base : ℕ) (s : Shm) (ms : List (List ℕ)) (zone_id : ℕ)
    → Rep virt_base s ms
    → ((m : List ℕ) (rest : List (List ℕ))
        → ms ≡ m ∷ rest
        → (s' : Shm) × (hyperamp_queue_release_slot s zone_id ≡ some (hyperamp_ok, s'))
          × Rep virt_base s' rest)
      × (ms ≡ []
          → (s' : Shm) × (hyperamp_queue_release_slot s zone_id ≡ some (hyperamp_error, s'))
            × Rep virt_base s' [])
unfolding hyperamp_queue_release_slot
release_fifo virt_base s ms zone_id r = (
  λ m rest e.
      let q : Rep virt_base s (m ∷ rest) = subst (Rep virt_base s) e r in
      let w : (s.tail + 1) % s.capacity % 2 ^ 16 ≡ (s.tail + 1) % s.capacity =
        mod_twice s.tail s.capacity q.valid.capacity_pos q.valid.capacity_u16 in
      (
        unlock_queue (pop_tail (locked s zone_id) ((s.tail + 1) % s.capacity % 2 ^ 16)),
        ground (
          arith,
          lock_queue_lem virt_base s zone_id r.valid,
          not_empty virt_base s (m ∷ rest) q (omega arith),
        ),
        popped-Rep virt_base s m rest q zone_id ((s.tail + 1) % s.capacity % 2 ^ 16) w
            (omega (arith, w, q.valid.capacity_pos)),
      ),
  λ e.
      let q : Rep virt_base s [] = subst (Rep virt_base s) e r in
      (
        unlock_queue (locked s zone_id),
        ground (arith, lock_queue_lem virt_base s zone_id r.valid, empty virt_base s [] q refl),
        Rep-unlock virt_base s [] zone_id q,
      ),
)
