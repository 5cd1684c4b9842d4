-- ===== src/Shm/Shared.antt =====
-- Two queues with control blocks of their own and one data region, which is how hyperamp_linux_init of
-- src/hyperamp_shm_queue.c and backend_engine_hyperamp_tx_queue_put / _rx_queue_get of src/engine.c
-- use the queues: both calls pass `hyper_amp_data_region` as `virt_base`.
use high_speed_cproxy.Base.{ℕ, ◌+◌, ◌*◌, ◌≤◌, ◌<◌, ◌≡◌, subst, some, List, [], ◌∷◌, arith, length}
use high_speed_cproxy.Memory.{Memory}
use high_speed_cproxy.Memory.Copy.{Holds, bytes, length-bytes, hyperamp_safe_memcpy-Holds}
use high_speed_cproxy.Spinlock.{hyperamp_ok}
use high_speed_cproxy.Shm.{
  Shm, HyperampShmQueue, slot_addr, next_index, unlock_queue, push_header, hyperamp_queue_enqueue,
}
use high_speed_cproxy.Shm.Bounds.{slot_addr_bounds}
use high_speed_cproxy.Shm.Fifo.{Rep, locked, pushed, lock_queue_lem, not_full}

-- The same control block over the region that another call left.
abbrev pub over : HyperampShmQueue → Shm → Shm
over q s = record { queue = q; region = s.region }

-- The receiving queue, which holds `m` in the block that the sending queue writes next.
pub record Meet (virt_base : ℕ) (tx : Shm) (rx : HyperampShmQueue) (sent : List (List ℕ))
    (m : List ℕ) : Type 0 where
  pub sending : Rep virt_base tx sent
  pub receiving : Rep virt_base (over rx tx) (m ∷ [])
  pub room : length sent + 1 < tx.capacity
  pub same_block : rx.block_size ≡ tx.block_size
  pub same_slot : rx.tail ≡ tx.header

module _ (virt_base : ℕ) (tx : Shm) (rx : HyperampShmQueue) (sent : List (List ℕ)) (m : List ℕ)
    (zone_id : ℕ) (buf : Memory) (len : ℕ) (h : Meet virt_base tx rx sent m) (pos : 0 < len)
    (fits : len ≤ tx.block_size) where
  sent_state : Shm
  sent_state = unlock_queue (
      push_header (locked (pushed virt_base tx buf len) zone_id) (next_index tx.capacity tx.header))

  enqueued :
      hyperamp_queue_enqueue tx zone_id (some buf) len virt_base ≡ some (hyperamp_ok, sent_state)
  unfolding hyperamp_queue_enqueue sent_state
  enqueued = ground (
    arith,
    lock_queue_lem virt_base tx zone_id h.sending.valid,
    not_full virt_base tx sent h.sending h.room,
  )

  replaced : Rep virt_base (over rx sent_state) (bytes buf 0 len ∷ [])
  unfolding sent_state unlock_queue push_header
  replaced = record {
    valid = record {
      capacity_pos = h.receiving.valid.capacity_pos;
      capacity_u16 = h.receiving.valid.capacity_u16;
      header_in = h.receiving.valid.header_in;
      tail_in = h.receiving.valid.tail_in;
      fits = h.receiving.valid.fits;
      unlocked = h.receiving.valid.unlocked;
    };
    room = h.receiving.room;
    place = h.receiving.place;
    slots = (
      omega (arith, length-bytes buf 0 len, h.same_block),
      rw (h.same_block, h.same_slot)
          (subst (λ b. Holds (pushed virt_base tx buf len).region b (bytes buf 0 len)) at
            (hyperamp_safe_memcpy-Holds tx.region (slot_addr virt_base tx.block_size tx.header) buf
              0 len)),
      tt,
    );
  }
    where
      at : slot_addr virt_base tx.block_size tx.header ≡ virt_base + (tx.header + 1) * tx.block_size
      at =
          (slot_addr_bounds virt_base tx.block_size tx.capacity tx.header h.sending.valid.header_in
            h.sending.valid.fits).0

-- The two queues of one region use the same blocks. If the receiving queue holds a message in the
-- block that the sending queue writes next, an enqueue into the sending queue, which has room and
-- returns HYPERAMP_OK, replaces it: the receiving queue then holds the bytes just sent in its place.
pub tx_overwrites_rx :
    (virt_base : ℕ) (tx : Shm) (rx : HyperampShmQueue) (sent : List (List ℕ)) (m : List ℕ)
    (zone_id : ℕ) (buf : Memory) (len : ℕ)
    → Meet virt_base tx rx sent m
    → 0 < len
    → len ≤ tx.block_size
    → (tx' : Shm) × (hyperamp_queue_enqueue tx zone_id (some buf) len virt_base
        ≡ some (hyperamp_ok, tx'))
      × Rep virt_base (over rx tx') (bytes buf 0 len ∷ [])
tx_overwrites_rx virt_base tx rx sent m zone_id buf len h pos fits = (
  sent_state virt_base tx rx sent m zone_id buf len h pos fits,
  enqueued virt_base tx rx sent m zone_id buf len h pos fits,
  replaced virt_base tx rx sent m zone_id buf len h pos fits,
)
