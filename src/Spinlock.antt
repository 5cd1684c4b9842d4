-- ===== src/Spinlock.antt =====
-- The software spinlock of include/hyperamp_shm_queue.h and src/hyperamp_shm_queue.c, seen by one
-- caller while nobody else runs. The interleavings of several zones are in the modules below:
-- `Exclusive` for the ARM64 path, `Plain` for the path of every other processor.
pub mod Exclusive
pub mod Plain
mod Examples
use high_speed_cproxy.Base.{ℕ, ◌+◌, ◌%◌, ◌^◌, Option, none, some, ◌==◌, if◌then◌else◌}

-- HYPERAMP_OK, HYPERAMP_ERROR and HYPERAMP_AGAIN.
pub data HyperampRet : Type 0 where
  hyperamp_ok hyperamp_error hyperamp_again : HyperampRet

-- `HyperampSpinlock`; each field is a uint32_t.
pub record HyperampSpinlock : Type 0 where
  pub lock_value : ℕ
  pub owner_zone_id : ℕ
  pub lock_count : ℕ
  pub contention_count : ℕ

unfoldable pub hyperamp_spinlock_init : HyperampSpinlock → HyperampSpinlock
hyperamp_spinlock_init lock = record lock {
  lock_value = 0;
  owner_zone_id = 0;
  lock_count = 0;
  contention_count = 0;
}

-- What both paths do once the value 0 has been seen and 1 has been stored.
unfoldable pub acquire : HyperampSpinlock → ℕ → HyperampSpinlock
acquire lock zone_id = record lock {
  lock_value = 1;
  owner_zone_id = zone_id;
  lock_count = (lock.lock_count + 1) % 2 ^ 32;
}

-- `none`: the value is not 0, and the caller spins until somebody else releases the lock.
unfoldable pub hyperamp_spinlock_lock : HyperampSpinlock → ℕ → Option HyperampSpinlock
unfolding acquire
hyperamp_spinlock_lock lock zone_id =
    if lock.lock_value == 0 then some (acquire lock zone_id) else none

unfoldable pub hyperamp_spinlock_unlock : HyperampSpinlock → HyperampSpinlock
hyperamp_spinlock_unlock lock = record lock { lock_value = 0; owner_zone_id = 0 }

unfoldable pub hyperamp_spinlock_trylock : HyperampSpinlock → ℕ → HyperampRet × HyperampSpinlock
unfolding acquire
hyperamp_spinlock_trylock lock zone_id =
    if lock.lock_value == 0
    then (HyperampRet.hyperamp_ok, acquire lock zone_id)
    else (HyperampRet.hyperamp_again, lock)
