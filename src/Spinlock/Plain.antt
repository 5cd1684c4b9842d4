-- ===== src/Spinlock/Plain.antt =====
-- Any number of zones on the path of hyperamp_spinlock_lock and hyperamp_spinlock_unlock that every
-- processor but ARM64 takes (src/hyperamp_shm_queue.c): plain loads and stores with barriers
-- between them, so each access is one step of a sequentially consistent interleaving.
use high_speed_cproxy.Base.{ℕ, ◌≡◌, ◌≢◌, refl, arith, ◌==◌, if◌then◌else◌}

pub data Pc : Type 0 where
  idle : Pc
  testing : Pc  -- before `lock->lock_value == 0`
  setting : Pc  -- before `lock->lock_value = 1`
  checking : Pc  -- before `lock->lock_value == 1`
  entered : Pc  -- the call has returned
  releasing : Pc  -- `owner_zone_id` is reset, before `lock->lock_value = 0`

pub record System : Type 0 where
  pub lock_value : ℕ
  pub pc : ℕ → Pc

abbrev pub update : (ℕ → Pc) → ℕ → Pc → ℕ → Pc
update f i a j = if i == j then a else f j

pub data Step (s : System) : System → Type 0 where
  call_lock : (i : ℕ) → s.pc i ≡ idle → Step s (record s { pc = update s.pc i testing })
  test_free :
      (i : ℕ)
      → s.pc i ≡ testing
      → s.lock_value ≡ 0
      → Step s (record s { pc = update s.pc i setting })
  test_taken : (i : ℕ) → s.pc i ≡ testing → s.lock_value ≢ 0 → Step s s
  set : (i : ℕ) → s.pc i ≡ setting → Step s (record { lock_value = 1; pc = update s.pc i checking })
  check :
      (i : ℕ)
      → s.pc i ≡ checking
      → s.lock_value ≡ 1
      → Step s (record s { pc = update s.pc i entered })
  check_fails :
      (i : ℕ)
      → s.pc i ≡ checking
      → s.lock_value ≢ 1
      → Step s (record s { pc = update s.pc i testing })
  unlock : (i : ℕ) → s.pc i ≡ entered → Step s (record s { pc = update s.pc i releasing })
  release :
      (i : ℕ) → s.pc i ≡ releasing → Step s (record { lock_value = 0; pc = update s.pc i idle })

abbrev pub start : System
start = record { lock_value = 0; pc = λ _. idle }

pub data Reach : System → Type 0 where
  begin : Reach start
  next : {s t : System} → Reach s → Step s t → Reach t

-- Any two zones can be inside together on this path: both find the word 0 before either writes it,
-- and the second look at the word finds 1 for both.
pub both_enter :
    (i j : ℕ) → i ≢ j → (s : System) × Reach s × (s.pc i ≡ entered) × (s.pc j ≡ entered)
both_enter i j ne = (
  _,
  next
      (next
        (next
          (next
            (next
              (next (next (next begin (call_lock i refl)) (call_lock j (ground arith)))
                (test_free i (ground arith) refl))
              (test_free j (ground arith) refl))
            (set i (ground arith)))
          (set j (ground arith)))
        (check i (ground arith) refl))
      (check j (ground arith) refl),
  ground arith,
  ground arith,
)
