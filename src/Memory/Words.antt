-- ===== src/Memory/Words.antt =====
-- What the little-endian reads and writes of `Memory` return.
use high_speed_cproxy.Base.{ℕ, zero, suc, ◌+◌, ◌/◌, ◌%◌, ◌^◌, ◌≤◌, ◌<◌, ◌≡◌, refl, ◌⊎◌, inl, arith}
use native.Mathlib.Nat.{pow-suc, pow-zero}
use high_speed_cproxy.Memory.{Memory, store, read_le, write_le}

pub store_at : (m : Memory) (a v : ℕ) → store m a v a ≡ v
store_at m a v = ground arith

-- Bytes outside the written range keep their value.
pub write_le_ne : (m : Memory) (a v n j : ℕ) → (j < a) ⊎ (a + n ≤ j) → write_le m a v n j ≡ m j
unfolding write_le
write_le_ne m a v zero j h = refl
write_le_ne m a v (suc n) j h =
    ground (arith, write_le_ne (store m a (v % 256)) (a + 1) (v / 256) n j)

-- Memories that agree on a range read alike there.
pub read_le_agree :
    (m w : Memory) (a n : ℕ)
    → ((k : ℕ) → k < n → w (a + k) ≡ m (a + k))
    → read_le w a n ≡ read_le m a n
unfolding read_le
read_le_agree m w a zero h = refl
read_le_agree m w a (suc n) h = ground (
  arith,
  h 0 (omega arith),
  read_le_agree m w (a + 1) n (λ k l. ground (arith, h (suc k) (omega arith))),
)

-- A write of `n` bytes is read back, if the value fits.
pub read_le-write_le : (m : Memory) (a v n : ℕ) → v < 256 ^ n → read_le (write_le m a v n) a n ≡ v
unfolding read_le write_le
read_le-write_le m a v zero h = omega (arith, pow-zero 256)
read_le-write_le m a v (suc n) h = omega (
  arith,
  write_le_ne (store m a (v % 256)) (a + 1) (v / 256) n a (inl (omega arith)),
  read_le-write_le (store m a (v % 256)) (a + 1) (v / 256) n (omega (arith, pow-suc 256 n)),
  store_at m a (v % 256),
)
