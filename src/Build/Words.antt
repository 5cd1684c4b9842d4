-- ===== src/Build/Words.antt =====
-- The members of the packed headers of include/message.h, which are uint16_t one after the other, as they are read back.
use high_speed_cproxy.Base.{ℕ, ◌+◌, ◌<◌, ◌≤◌, ◌^◌, ◌≡◌, ◌⊎◌, arith}
use high_speed_cproxy.Memory.{Memory, read_le, write_le}
use high_speed_cproxy.Build.{put_words}

-- Memories that agree on two bytes hold the same uint16_t there.
pub read_u16-agree :
    (m : Memory) (a : ℕ) (w : Memory) (b : ℕ)
    → m a ≡ w b
    → m (a + 1) ≡ w (b + 1)
    → read_le m a 2 ≡ read_le w b 2
unfolding read_le
read_u16-agree m a w b h0 h1 = omega (arith, h0, h1)

pub write_u16_ne : (m : Memory) (a v j : ℕ) → (j < a) ⊎ (a + 2 ≤ j) → write_le m a v 2 j ≡ m j
unfolding write_le
write_u16_ne m a v j h = ground (arith, h)

pub write_u16_read : (m : Memory) (a v : ℕ) → v < 2 ^ 16 → read_le (write_le m a v 2) a 2 ≡ v
unfolding write_le read_le
write_u16_read m a v h = ground (arith, h)

-- A uint16_t beside the one that is written.
pub write_u16_beside :
    (m : Memory) (a v b : ℕ)
    → (b + 2 ≤ a) ⊎ (a + 2 ≤ b)
    → read_le (write_le m a v 2) b 2 ≡ read_le m b 2
write_u16_beside m a v b h =
    read_u16-agree (write_le m a v 2) b m b (write_u16_ne m a v b (ground (arith, h)))
      (write_u16_ne m a v (b + 1) (ground (arith, h)))

module _ (m : Memory) (a v0 v1 v2 v3 v4 : ℕ) where
  pub put_words_ne : (j : ℕ) → (j < a) ⊎ (a + 10 ≤ j) → put_words m a v0 v1 v2 v3 v4 j ≡ m j
  unfolding put_words write_le read_le
  put_words_ne j h = ground (arith, h)

  pub put_words_read :
      v0 < 2 ^ 16
      → v1 < 2 ^ 16
      → v2 < 2 ^ 16
      → v3 < 2 ^ 16
      → v4 < 2 ^ 16
      → (read_le (put_words m a v0 v1 v2 v3 v4) a 2 ≡ v0)
        × (read_le (put_words m a v0 v1 v2 v3 v4) (a + 2) 2 ≡ v1)
        × (read_le (put_words m a v0 v1 v2 v3 v4) (a + 4) 2 ≡ v2)
        × (read_le (put_words m a v0 v1 v2 v3 v4) (a + 6) 2 ≡ v3)
        × (read_le (put_words m a v0 v1 v2 v3 v4) (a + 8) 2 ≡ v4)
  unfolding put_words write_le read_le
  put_words_read h0 h1 h2 h3 h4 = (
    ground (arith, h0),
    ground (arith, h1),
    ground (arith, h2),
    ground (arith, h3),
    ground (arith, h4),
  )
