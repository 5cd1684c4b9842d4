-- ===== src/ShmPool/Order.antt =====
-- The order in which the older queue's slots are received, and where its copying send puts a message.
use high_speed_cproxy.Base.{
  ℕ, zero, suc, ◌+◌, ◌*◌, ◌<◌, ◌≤◌, ◌≡◌, ◌≢◌, ◌∙◌, refl, ap, inr, arith, false, Option, none, some,
  ltb, ◌==◌, ◌||◌, if◌then◌else◌,
}
use high_speed_cproxy.Memory.{Memory, hyperamp_safe_memcpy}
use high_speed_cproxy.Memory.Copy.{hyperamp_safe_memcpy_at, hyperamp_safe_memcpy_ne}
use high_speed_cproxy.Selector.{Ret, process_ok}
use high_speed_cproxy.ShmPool.{
  SharedMemoryPoolQueue, next_header, shmp_queue_enqueue, shmp_queue_dequeue,
  shm_pool_queue_head_alloc, shared_mem_pool_queue_send_oc, shared_mem_pool_queue_recv_zc,
}
use high_speed_cproxy.ShmPool.Indices.{IsValid, held, next_header-cases}

-- The tail after one message is received.
abbrev pub next_tail : SharedMemoryPoolQueue → ℕ
next_tail q = if q.tail + 1 == q.capacity then 0 else q.tail + 1

module _ (q : SharedMemoryPoolQueue) (v : IsValid q) where
  dequeue_lem :
      q.header ≢ q.tail → shmp_queue_dequeue q ≡ (process_ok, record q { tail = next_tail q })
  unfolding shmp_queue_dequeue
  dequeue_lem n = ground (arith, n, v.tail_in, v.capacity_u16)

  recv_lem :
      0 < q.block_size
      → q.header ≢ q.tail
      → shared_mem_pool_queue_recv_zc q ≡ (
        process_ok,
        some (q.virt_addr1 + (q.tail + 1) * q.block_size),
        record q { tail = next_tail q },
      )
  unfolding shared_mem_pool_queue_recv_zc
  recv_lem b n =
      let block : (q.block_size == 0) ≡ false = ground (arith, b) in
      let some_held : (q.header == q.tail) ≡ false = ground (arith, n) in
      rw (dequeue_lem n, block, some_held) refl

  next-IsValid : IsValid (record q { tail = next_tail q })
  next-IsValid = record {
    capacity_u16 = v.capacity_u16;
    header_in = v.header_in;
    tail_in = ground (arith, v.tail_in);
  }

  held-next : q.header ≢ q.tail → held (record q { tail = next_tail q }) + 1 ≡ held q
  held-next n = ground (arith, n, v.tail_in, v.header_in)

-- So many messages received, one after the other; `none` if one is not there.
pub received : ℕ → SharedMemoryPoolQueue → Option SharedMemoryPoolQueue
received zero q = some q
received (suc n) q =
    let r = shared_mem_pool_queue_recv_zc q in
    let rest = received n r.2 in elim r.0 [ process_ok ↦ rest | _ ↦ none ]

received_lem :
    (n : ℕ) (q : SharedMemoryPoolQueue)
    → IsValid q
    → 0 < q.block_size
    → n ≤ held q
    → (t : ℕ) × (received n q ≡ some (record q { tail = t }))
      × IsValid (record q { tail = t })
      × (held (record q { tail = t }) + n ≡ held q)
unfolding received
received_lem zero q v b h = (q.tail, refl, v, omega arith)
received_lem (suc n) q v b h =
    let some_held : q.header ≢ q.tail = λ e. ground (arith, e, h) in
    let less = held-next q v some_held in
    let (t, e, w, k) =
      received_lem n (record q { tail = next_tail q }) (next-IsValid q v) b
        (omega (arith, h, less)) in
    (t, ap step (recv_lem q v b some_held) ∙ e, w, omega (arith, k, less))
  where
    step : Ret × Option ℕ × SharedMemoryPoolQueue → Option SharedMemoryPoolQueue
    step r = elim r.0 [ process_ok ↦ received n r.2 | _ ↦ none ]

module _ (q : SharedMemoryPoolQueue) (v : IsValid q) (b : 0 < q.block_size) where
  abbrev grown : SharedMemoryPoolQueue
  grown = record q { header = next_header q }

  grown-IsValid : IsValid grown
  grown-IsValid = record {
    capacity_u16 = v.capacity_u16;
    header_in = ground (arith, v.header_in, next_header-cases q v);
    tail_in = v.tail_in;
  }

  held-grown : next_header q ≢ q.tail → held grown ≡ held q + 1
  held-grown n = ground (arith, n, v.header_in, v.tail_in, next_header-cases q v)

  enqueue_lem : next_header q ≢ q.tail → shmp_queue_enqueue q ≡ (process_ok, grown)
  unfolding shmp_queue_enqueue
  enqueue_lem n = ground (arith, n, next_header-cases q v, v.header_in, v.tail_in, v.capacity_u16)

  last_tail : (t : ℕ) → t < q.capacity → held (record grown { tail = t }) ≡ 1 → t ≡ q.header
  last_tail t l h = ground (arith, l, h, v.header_in, next_header-cases q v)

  -- A slot that SHM_POOL_QUEUE_HEAD_ALLOC gives out of a valid queue that is not full is received in its turn: each of as
  -- many calls of shared_mem_pool_queue_recv_zc as there were messages before succeeds, the next one returns
  -- the address that was given out, and then the queue is empty.
  pub alloc_received :
      next_header q ≢ q.tail
      → (q1 : SharedMemoryPoolQueue) × (q2 : SharedMemoryPoolQueue) × (received
            (held q)
            (shm_pool_queue_head_alloc q).2
          ≡ some q1)
        × (shared_mem_pool_queue_recv_zc q1 ≡ (process_ok, (shm_pool_queue_head_alloc q).1, q2))
        × (q2.header ≡ q2.tail)
  unfolding shm_pool_queue_head_alloc
  alloc_received n =
      let (t, e, w, k) =
        received_lem (held q) grown grown-IsValid b (omega (arith, held-grown n)) in
      let one : held (record grown { tail = t }) ≡ 1 = omega (arith, k, held-grown n) in
      let at : t ≡ q.header = last_tail t w.tail_in one in
      let left : next_header q ≢ t = λ e. ground (arith, e, one) in
      let test : (next_header q == q.tail) ≡ false = ground (arith, n) in
      (
        record grown { tail = t },
        record grown { tail = next_tail (record grown { tail = t }) },
        rw test e,
        recv_lem (record grown { tail = t }) w b left ∙ rw (test, at) refl,
        ground (arith, at, next_header-cases q v, v.header_in),
      )

  -- A message that shared_mem_pool_queue_send_oc copies into an empty queue of at least two slots lies at the slot of the
  -- header, while shared_mem_pool_queue_recv_zc then returns the slot after it, in which every byte is what it was before.
  send_recv_apart :
      (m buf : Memory) (data_size : ℕ)
      → q.header ≡ q.tail
      → 2 ≤ q.capacity
      → 0 < data_size
      → data_size ≤ q.block_size
      → (q1 : SharedMemoryPoolQueue) × (m1 : Memory) × (addr : ℕ) × (q2 : SharedMemoryPoolQueue)
        × (shared_mem_pool_queue_send_oc (some q) m (some buf) data_size
            ≡ (process_ok, some q1, m1))
        × ((j : ℕ) → j < data_size → m1 (q.virt_addr1 + q.header * q.block_size + j) ≡ buf j)
        × (shared_mem_pool_queue_recv_zc q1 ≡ (process_ok, some addr, q2))
        × ((j : ℕ) → m1 (addr + j) ≡ m (addr + j))
  unfolding shared_mem_pool_queue_send_oc
  send_recv_apart m buf data_size e two pos fits =
      let at : ℕ = q.virt_addr1 + q.header * q.block_size in
      let m1 : Memory = hyperamp_safe_memcpy m at buf 0 data_size in
      let apart : next_header q ≢ q.tail =
        λ f. ground (arith, e, f, two, next_header-cases q v, v.header_in) in
      let block : (q.block_size == 0) ≡ false = ground (arith, b) in
      let size : ((data_size == 0) || ltb q.block_size data_size) ≡ false =
        ground (arith, pos, fits) in
      let room : (next_header q == q.tail) ≡ false = ground (arith, apart) in
      (
        grown,
        m1,
        q.virt_addr1 + (q.tail + 1) * q.block_size,
        record grown { tail = next_tail grown },
        rw (enqueue_lem apart, block, size, room) refl,
        λ j l. hyperamp_safe_memcpy_at m at buf 0 data_size j l ∙ ap buf (omega arith),
        recv_lem grown grown-IsValid b apart,
        λ j.
            hyperamp_safe_memcpy_ne m at buf 0 data_size
              (q.virt_addr1 + (q.tail + 1) * q.block_size + j) (inr (rw e (omega (arith, fits)))),
      )
