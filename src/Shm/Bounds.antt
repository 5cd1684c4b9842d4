-- ===== src/Shm/Bounds.antt =====
-- The invariant of the shared-memory queue (src/hyperamp_shm_queue.c), and where its slots lie.
use native.Mathlib.Nat.{mod-eq_of_lt, mod-eq-sub-mod}
use high_speed_cproxy.Base.{ℕ, ◌+◌, ◌*◌, ◌%◌, ◌^◌, ◌≤◌, ◌<◌, ◌≡◌, ◌≢◌, ◌⊎◌, inl, inr, arith, dec_lt}
use high_speed_cproxy.Shm.{Shm, slot_addr, next_index}

-- The queue is initialised, its indices are in range, its slots fit the address space, and nobody
-- holds its lock.
pub record IsValid (virt_base : ℕ) (s : Shm) : Type 0 where
  pub capacity_pos : 0 < s.capacity
  pub capacity_u16 : s.capacity < 2 ^ 16
  pub header_in : s.header < s.capacity
  pub tail_in : s.tail < s.capacity
  pub fits : virt_base + (s.capacity + 1) * s.block_size < 2 ^ 64
  pub unlocked : s.queue_lock.lock_value ≡ 0

-- The code's wrap and the `%` of the zero-copy calls agree.
pub next_index-eq-mod :
    (capacity index : ℕ)
    → index < capacity
    → capacity < 2 ^ 16
    → next_index capacity index ≡ (index + 1) % capacity
next_index-eq-mod capacity index h l = elim (dec_lt (index + 1) capacity) [
  | yes p ↦ ground (arith, mod-eq_of_lt p)
  | no p ↦ ground (arith, mod-eq-sub-mod {n = index + 1} {m = capacity} (omega arith))
]

pub next_index-lt :
    (capacity index : ℕ)
    → index < capacity
    → capacity < 2 ^ 16
    → next_index capacity index < capacity
next_index-lt capacity index h l = ground arith

-- The block of an earlier slot ends where a later one begins, or before.
slot_step : (b i j : ℕ) → i < j → (i + 1) * b + b ≤ (j + 1) * b
slot_step b i j h = grind arith

-- A slot's address does not wrap, and its block ends inside the region.
pub slot_addr_bounds :
    (virt_base block_size capacity index : ℕ)
    → index < capacity
    → virt_base + (capacity + 1) * block_size < 2 ^ 64
    → (slot_addr virt_base block_size index ≡ virt_base + (index + 1) * block_size)
      × (slot_addr virt_base block_size index + block_size
          ≤ virt_base + (capacity + 1) * block_size)
slot_addr_bounds virt_base block_size capacity index h l =
    let below : (index + 1) * block_size + block_size ≤ (capacity + 1) * block_size =
      slot_step block_size index capacity h in
    let e : slot_addr virt_base block_size index ≡ virt_base + (index + 1) * block_size =
      mod-eq_of_lt (omega arith) in
    (e, omega arith)

-- The blocks of two slots do not overlap.
pub slots_apart :
    (virt_base block_size i j k : ℕ)
    → i ≢ j
    → k < block_size
    → (virt_base + (i + 1) * block_size + k < virt_base + (j + 1) * block_size)
      ⊎ (virt_base + (j + 1) * block_size + block_size ≤ virt_base + (i + 1) * block_size + k)
slots_apart virt_base block_size i j k ne h = elim (dec_lt i j) [
  | yes p ↦ inl (omega (arith, slot_step block_size i j p))
  | no p ↦ inr (omega (arith, slot_step block_size j i (omega arith)))
]
