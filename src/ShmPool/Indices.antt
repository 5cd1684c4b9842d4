-- ===== src/ShmPool/Indices.antt =====
-- The indices of the older queue: the memory that the macros of include/shared_mem_io.h say is used, and an allocation
-- that is rolled back.
use high_speed_cproxy.Base.{true}
use high_speed_cproxy.Base.{ℕ_discrete}
use high_speed_cproxy.Base.{false}
use high_speed_cproxy.Base.{none}
use high_speed_cproxy.Base.{inr}
use native.Mathlib.Nat.{mod-eq_of_lt, mod-eq-sub-mod}
use high_speed_cproxy.Base.{inl}
use high_speed_cproxy.Base.{dec_lt}
use high_speed_cproxy.Base.{
  ℕ, ◌+◌, ◌-◌, ◌*◌, ◌<◌, ◌≤◌, ◌^◌, ◌≡◌, ◌≢◌, ◌⊎◌, refl, ap, arith, some, leb, ◌==◌, if◌then◌else◌,
}
use high_speed_cproxy.Selector.{process_ok, process_error}
use high_speed_cproxy.ShmPool.{
  SharedMemoryPoolQueue, shmp_queue_used_memory, shmp_queue_surplus_memory, next_header,
  shm_pool_queue_lookup_virtaddr, shm_pool_queue_head_alloc, shm_pool_queue_alloc_from_header,
  shm_pool_queue_head_rollback,
}

-- The indices are in range, and the capacity has the width of its type.
pub record IsValid (q : SharedMemoryPoolQueue) : Type 0 where
  pub capacity_u16 : q.capacity < 2 ^ 16
  pub header_in : q.header < q.capacity
  pub tail_in : q.tail < q.capacity

-- How many messages the queue holds.
abbrev pub held : SharedMemoryPoolQueue → ℕ
held q = if leb q.tail q.header then q.header - q.tail else q.capacity - q.tail + q.header

module _ (q : SharedMemoryPoolQueue) (v : IsValid q) where
  -- What is called the used memory of a queue that holds messages is the size of the slots without one, and what is called
  -- the surplus is the size of the slots with one. Of an empty queue the used memory is 0 and the surplus all.
  pub memory_swapped :
      (q.header ≢ q.tail
        → (shmp_queue_used_memory q ≡ (q.capacity - held q) * q.block_size)
          × (shmp_queue_surplus_memory q ≡ held q * q.block_size))
      × (q.header ≡ q.tail
          → (shmp_queue_used_memory q ≡ 0)
            × (shmp_queue_surplus_memory q ≡ q.capacity * q.block_size))
  unfolding shmp_queue_used_memory shmp_queue_surplus_memory
  memory_swapped = (
    λ n. (
      ap (λ k. k * q.block_size) (ground (arith, v.header_in, v.tail_in, n)),
      ap (λ k. k * q.block_size) (ground (arith, v.header_in, v.tail_in, n)),
    ),
    λ e. (
      let z : (if leb q.header q.tail then q.tail - q.header else q.capacity - q.header + q.tail)
              ≡ 0 =
            ground (arith, v.header_in, v.tail_in, e) in
          rw z (omega arith),
      ap (λ k. k * q.block_size) (ground (arith, v.header_in, v.tail_in, e)),
    ),
  )

  pub next_header-cases :
      ((q.header + 1 < q.capacity) × (next_header q ≡ q.header + 1))
      ⊎ ((q.header + 1 ≡ q.capacity) × (next_header q ≡ 0))
  next_header-cases = elim (dec_lt (q.header + 1) q.capacity) [
    | yes p ↦ inl (p, mod-eq_of_lt p)
    | no p ↦
        let e : q.header + 1 ≡ q.capacity = omega (arith, v.header_in) in
        inr
          (e, rw e (ground (arith, mod-eq-sub-mod {n = q.capacity} {m = q.capacity} (omega arith))))
  ]

  back_lem :
      next_header q ≢ q.tail
      → shm_pool_queue_head_rollback (record q { header = next_header q }) ≡ q
  unfolding shm_pool_queue_head_rollback
  back_lem n = ground (arith, n, next_header-cases)

  -- Where the queue is not full, both ways to allocate take the slot at the header, in a mapping mode that there is (0
  -- or 1), and a rollback makes the queue what it was. Where it is full neither takes anything, and neither gives an address.
  alloc_rollback :
      (next_header q ≢ q.tail
        → ((shm_pool_queue_head_alloc q).0 ≡ process_ok)
          × (shm_pool_queue_head_rollback (shm_pool_queue_head_alloc q).2 ≡ q)
          × (q.map_mode1 ≤ 1
              → ((a : ℕ) × ((shm_pool_queue_alloc_from_header q).0 ≡ some a))
                × (shm_pool_queue_head_rollback (shm_pool_queue_alloc_from_header q).1 ≡ q)))
      × (next_header q ≡ q.tail
          → (shm_pool_queue_head_alloc q ≡ (process_error, none, q))
            × (shm_pool_queue_alloc_from_header q ≡ (none, q)))
  unfolding shm_pool_queue_head_alloc shm_pool_queue_alloc_from_header
      shm_pool_queue_lookup_virtaddr
  alloc_rollback = (
    λ n.
        let back = back_lem n in
        let test : (next_header q == q.tail) ≡ false = ground (arith, n) in
        (
          ground (arith, n),
          rw test back,
          λ m. elim (ℕ_discrete q.map_mode1 0) [
            | yes z ↦
                let mode : (q.map_mode1 == 0) ≡ true = ground (arith, z) in
                rw (test, mode) ((_, refl), back)
            | no z ↦
                let mode0 : (q.map_mode1 == 0) ≡ false = ground (arith, z) in
                let mode1 : (q.map_mode1 == 1) ≡ true = ground (arith, z, m) in
                let in_range : leb q.capacity q.header ≡ false = ground (arith, v.header_in) in
                rw (test, mode0, mode1, in_range) ((_, refl), back)
          ],
        ),
    λ e. (ground (arith, e), ground (arith, e)),
  )
