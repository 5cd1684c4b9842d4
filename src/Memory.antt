-- ===== src/Memory.antt =====
-- Byte-addressed memory, and the byte-by-byte helpers of src/hyperamp_shm_queue.c:
-- hyperamp_safe_memset, hyperamp_safe_memcpy, hyperamp_safe_read_u16/u32/u64, and the
-- little-endian store loops of hyperamp_queue_init. Barriers have no effect on one thread's view.
pub mod Copy
pub mod Words
use high_speed_cproxy.Base.{ℕ, zero, suc, ◌+◌, ◌*◌, ◌/◌, ◌%◌, ◌^◌, ◌==◌, if◌then◌else◌}

-- The bytes at each address, or of a buffer from its start.
abbrev pub Memory : Type 0
Memory = ℕ → ℕ

-- `p[a] = v` for `uint8_t *p`; what is stored is a byte already.
abbrev pub store : Memory → ℕ → ℕ → Memory
store m a v j = if a == j then v else m j

-- The `for` loop over `i`, with `n` rounds left.
set_from : Memory → ℕ → ℕ → ℕ → ℕ → Memory
set_from m dst val i zero = m
set_from m dst val i (suc n) = set_from (store m (dst + i) val) dst val (i + 1) n

pub hyperamp_safe_memset : Memory → ℕ → ℕ → ℕ → Memory
unfolding set_from
hyperamp_safe_memset m dst val len = set_from m dst val 0 len

-- The source may be another memory than the destination: a private buffer, or the shared region.
unfoldable pub copy_from : Memory → ℕ → Memory → ℕ → ℕ → ℕ → Memory
copy_from m dst from src i zero = m
copy_from m dst from src i (suc n) =
    copy_from (store m (dst + i) (from (src + i))) dst from src (i + 1) n

pub hyperamp_safe_memcpy : Memory → ℕ → Memory → ℕ → ℕ → Memory
unfolding copy_from
hyperamp_safe_memcpy m dst from src len = copy_from m dst from src 0 len

-- `val |= p[offset + i] << (i * 8)` for i = 0 .. n - 1: the bytes do not overlap, so `|` is `+`.
unfoldable pub read_le : Memory → ℕ → ℕ → ℕ
read_le m a zero = 0
read_le m a (suc n) = m a + 256 * read_le m (a + 1) n

unfoldable pub hyperamp_safe_read_u16 : Memory → ℕ → ℕ
unfolding read_le
hyperamp_safe_read_u16 m a = read_le m a 2

pub hyperamp_safe_read_u32 : Memory → ℕ → ℕ
unfolding read_le
hyperamp_safe_read_u32 m a = read_le m a 4

pub hyperamp_safe_read_u64 : Memory → ℕ → ℕ
unfolding read_le
hyperamp_safe_read_u64 m a = read_le m a 8

-- `p[a + i] = (v >> (i * 8)) & 0xFF` for the next `n` values of i.
unfoldable pub write_le : Memory → ℕ → ℕ → ℕ → Memory
write_le m a v zero = m
write_le m a v (suc n) = write_le (store m a (v % 256)) (a + 1) (v / 256) n
