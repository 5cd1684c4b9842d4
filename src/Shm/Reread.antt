-- ===== src/Shm/Reread.antt =====
-- The queue of src/hyperamp_shm_queue.c while its data region is written to: what a dequeue reads is what stands in the slot
-- then.
use high_speed_cproxy.Base.{
  ℕ, ◌+◌, ◌*◌, ◌%◌, ◌<◌, ◌≡◌, refl, ap, ◌∙◌, Option, some, List, [], ◌∷◌, arith, length,
}
use high_speed_cproxy.Memory.{Memory}
use high_speed_cproxy.Memory.Copy.{Holds-bytes, bytes, length-bytes, hyperamp_safe_memcpy_at}
use high_speed_cproxy.Spinlock.{hyperamp_ok, hyperamp_again, hyperamp_spinlock_unlock}
use high_speed_cproxy.Shm.{
  Shm, slot_addr, next_index, unlock_queue, pop_tail, read_tail, read_len, set_len,
  hyperamp_queue_dequeue,
}
use high_speed_cproxy.Shm.Bounds.{next_index-eq-mod, next_index-lt, slot_addr_bounds}
use high_speed_cproxy.Shm.Slots.{Slots}
use high_speed_cproxy.Shm.Fifo.{Rep, locked, lock_queue_lem, empty, not_empty, Rep-unlock}
use high_speed_cproxy.Shm.Take.{popped-Rep}

-- The address of a slot's block.
abbrev pub slot_at : (base block_size slot : ℕ) → ℕ
slot_at base block_size slot = base + (slot + 1) * block_size

-- The buffer begins with the block in a slot, cut to `max_len` bytes.
abbrev pub IsRead : (max_len base block_size slot : ℕ) → (region buf : Memory) → Type 0
IsRead max_len base block_size slot region buf =
    (k : ℕ) → k < read_len max_len block_size → buf k ≡ region (slot_at base block_size slot + k)

-- What a dequeue leaves of the queue, and the buffer.
pub record IsTaken (max_len base : ℕ) (s s' : Shm) (buf : Memory) : Type 0 where
  pub read : IsRead max_len base s.block_size s.tail s.region buf
  pub region : s'.region ≡ s.region
  pub block_size : s'.block_size ≡ s.block_size
  pub capacity : s'.capacity ≡ s.capacity
  pub tail : s'.tail ≡ (s.tail + 1) % s.capacity

pub dequeue-IsTaken :
    (base : ℕ) (s : Shm) (m : List ℕ) (ms : List (List ℕ)) (zone_id : ℕ) (buf : Memory)
    (max_len : ℕ) (actual_len : Option ℕ)
    → Rep base s (m ∷ ms)
    → 0 < max_len
    → (s' : Shm) × (buf' : Memory) × (hyperamp_queue_dequeue s zone_id
          (some buf)
          max_len
          actual_len
          base
        ≡ some (record {
          ret = hyperamp_ok;
          shm = s';
          buf = some buf';
          actual_len = set_len actual_len (read_len max_len s.block_size);
        }))
      × IsTaken max_len base s s' buf'
      × Rep base s' ms
unfolding hyperamp_queue_dequeue read_tail unlock_queue pop_tail hyperamp_spinlock_unlock
dequeue-IsTaken base s m ms zone_id buf max_len actual_len r pos =
    let w : next_index s.capacity s.tail ≡ (s.tail + 1) % s.capacity =
      next_index-eq-mod s.capacity s.tail r.valid.tail_in r.valid.capacity_u16 in
    (
      unlock_queue (pop_tail (locked s zone_id) (next_index s.capacity s.tail)),
      read_tail s buf max_len base,
      ground
          (arith, lock_queue_lem base s zone_id r.valid, not_empty base s (m ∷ ms) r (omega arith)),
      record {
        read = λ k l.
            ap (read_tail s buf max_len base) (omega arith)
            ∙ hyperamp_safe_memcpy_at buf 0 s.region (slot_addr base s.block_size s.tail)
                (read_len max_len s.block_size) k l
            ∙ ap (λ a. s.region (a + k))
                (slot_addr_bounds base s.block_size s.capacity s.tail r.valid.tail_in
                  r.valid.fits).0;
        region = refl;
        block_size = refl;
        capacity = refl;
        tail = w;
      },
      popped-Rep base s m ms r zone_id (next_index s.capacity s.tail) w
          (next_index-lt s.capacity s.tail r.valid.tail_in r.valid.capacity_u16),
    )

pub dequeue_empty :
    (base : ℕ) (s : Shm) (zone_id : ℕ) (buf : Memory) (max_len : ℕ) (actual_len : Option ℕ)
    → Rep base s []
    → 0 < max_len
    → (s' : Shm) × (hyperamp_queue_dequeue s zone_id (some buf) max_len actual_len base
        ≡ some (record { ret = hyperamp_again; shm = s'; buf = some buf; actual_len = actual_len }))
      × (s'.region ≡ s.region)
      × Rep base s' []
unfolding hyperamp_queue_dequeue unlock_queue
dequeue_empty base s zone_id buf max_len actual_len r pos = (
  unlock_queue (locked s zone_id),
  ground (arith, lock_queue_lem base s zone_id r.valid, empty base s [] r refl),
  refl,
  Rep-unlock base s [] zone_id r,
)

-- As many messages of the same lengths, as they stand in another region.
module _ (base block_size capacity : ℕ) (region : Memory) where
  abbrev reread : (slot : ℕ) → List (List ℕ) → List (List ℕ)
  reread slot [] = []
  reread slot (m ∷ ms) =
      bytes region (slot_at base block_size slot) (length m) ∷ reread ((slot + 1) % capacity) ms

  length-reread : (slot : ℕ) (ms : List (List ℕ)) → length (reread slot ms) ≡ length ms
  length-reread slot [] = refl
  length-reread slot (m ∷ ms) = omega (arith, length-reread ((slot + 1) % capacity) ms)

  reread-Slots :
      (old : Memory) (slot : ℕ) (ms : List (List ℕ))
      → Slots base block_size capacity old slot ms
      → Slots base block_size capacity region slot (reread slot ms)
  reread-Slots old slot [] h = tt
  reread-Slots old slot (m ∷ ms) h = (
    omega (arith, h.0, length-bytes region (slot_at base block_size slot) (length m)),
    Holds-bytes region (slot_at base block_size slot) (length m),
    reread-Slots old ((slot + 1) % capacity) ms h.2,
  )

-- A queue whose region is written to is still valid, with as many messages.
pub rewritten-Rep :
    (base : ℕ) (s : Shm) (ms : List (List ℕ)) (region : Memory)
    → Rep base s ms
    → (ms' : List (List ℕ)) × (length ms' ≡ length ms) × Rep base (record s { region = region }) ms'
rewritten-Rep base s ms region r =
    let same = length-reread base s.block_size s.capacity region s.tail ms in
    (
      reread base s.block_size s.capacity region s.tail ms,
      same,
      record {
        valid = record {
          capacity_pos = r.valid.capacity_pos;
          capacity_u16 = r.valid.capacity_u16;
          header_in = r.valid.header_in;
          tail_in = r.valid.tail_in;
          fits = r.valid.fits;
          unlocked = r.valid.unlocked;
        };
        room = omega (arith, same, r.room);
        place = rw same r.place;
        slots = reread-Slots base s.block_size s.capacity region s.region s.tail ms r.slots;
      },
    )
