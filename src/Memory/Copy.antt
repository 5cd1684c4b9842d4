-- ===== src/Memory/Copy.antt =====
-- What the copy and fill loops of `Memory` leave at each address.
use high_speed_cproxy.Base.{◌∙◌}
use high_speed_cproxy.Base.{ap}
use high_speed_cproxy.Base.{ap₂, ◌++◌}
use high_speed_cproxy.Base.{
  ℕ, zero, suc, ◌+◌, ◌≤◌, ◌<◌, ◌≡◌, refl, ◌⊎◌, List, [], ◌∷◌, arith, length, take,
}
use high_speed_cproxy.Base.{dec_lt}
use high_speed_cproxy.Memory.{Memory, store, copy_from}
use high_speed_cproxy.Memory.{hyperamp_safe_memcpy, set_from, hyperamp_safe_memset}

-- Bytes outside the copied range keep their value.
copy_from_ne :
    (m : Memory) (dst : ℕ) (from : Memory) (src i n j : ℕ)
    → (j < dst + i) ⊎ (dst + i + n ≤ j)
    → copy_from m dst from src i n j ≡ m j
unfolding copy_from
copy_from_ne m dst from src i zero j h = refl
copy_from_ne m dst from src i (suc n) j h =
    ground (arith, copy_from_ne (store m (dst + i) (from (src + i))) dst from src (i + 1) n j)

copy_from_at :
    (m : Memory) (dst : ℕ) (from : Memory) (src i n k : ℕ)
    → i ≤ k
    → k < i + n
    → copy_from m dst from src i n (dst + k) ≡ from (src + k)
unfolding copy_from
copy_from_at m dst from src i zero k h l = absurd (omega arith)
copy_from_at m dst from src i (suc n) k h l = elim (dec_lt i k) [
  | yes p ↦
      copy_from_at (store m (dst + i) (from (src + i))) dst from src (i + 1) n k (omega arith)
        (omega arith)
  | no p ↦
      let e : k ≡ i = omega arith in
      ground (
        arith,
        e,
        copy_from_ne (store m (dst + i) (from (src + i))) dst from src (i + 1) n (dst + k),
      )
]

pub hyperamp_safe_memcpy_ne :
    (m : Memory) (dst : ℕ) (from : Memory) (src len j : ℕ)
    → (j < dst) ⊎ (dst + len ≤ j)
    → hyperamp_safe_memcpy m dst from src len j ≡ m j
unfolding hyperamp_safe_memcpy
hyperamp_safe_memcpy_ne m dst from src len j h = copy_from_ne m dst from src 0 len j (omega arith)

pub hyperamp_safe_memcpy_at :
    (m : Memory) (dst : ℕ) (from : Memory) (src len k : ℕ)
    → k < len
    → hyperamp_safe_memcpy m dst from src len (dst + k) ≡ from (src + k)
unfolding hyperamp_safe_memcpy
hyperamp_safe_memcpy_at m dst from src len k h =
    copy_from_at m dst from src 0 len k (omega arith) (omega arith)

-- The memory holds these bytes from the address on.
abbrev pub Holds : Memory → ℕ → List ℕ → Type 0
Holds m a [] = Unit
Holds m a (x ∷ xs) = (m a ≡ x) × Holds m (a + 1) xs

-- The first `n` bytes from an address on.
abbrev pub bytes : Memory → ℕ → ℕ → List ℕ
bytes m a zero = []
bytes m a (suc n) = m a ∷ bytes m (a + 1) n

pub length-bytes : (m : Memory) (a n : ℕ) → length (bytes m a n) ≡ n
length-bytes m a zero = refl
length-bytes m a (suc n) = omega (arith, length-bytes m (a + 1) n)

-- Two memories that agree on a range hold the same bytes there.
pub Holds-agree :
    (m : Memory) (a : ℕ) (w : Memory) (b : ℕ) (xs : List ℕ)
    → ((k : ℕ) → k < length xs → w (b + k) ≡ m (a + k))
    → Holds m a xs
    → Holds w b xs
Holds-agree m a w b [] h p = tt
Holds-agree m a w b (x ∷ xs) h p = (
  ground (arith, h 0 (omega arith)),
  Holds-agree m (a + 1) w (b + 1) xs (λ k l. ground (arith, h (suc k) (omega arith))) p.1,
)

pub Holds-bytes : (m : Memory) (a n : ℕ) → Holds m a (bytes m a n)
Holds-bytes m a zero = tt
Holds-bytes m a (suc n) = (refl, Holds-bytes m (a + 1) n)

-- A copy of `len` bytes leaves the source's bytes at the destination.
pub hyperamp_safe_memcpy-Holds :
    (m : Memory) (dst : ℕ) (from : Memory) (src len : ℕ)
    → Holds (hyperamp_safe_memcpy m dst from src len) dst (bytes from src len)
hyperamp_safe_memcpy-Holds m dst from src len =
    Holds-agree from src (hyperamp_safe_memcpy m dst from src len) dst (bytes from src len)
      (λ k l. hyperamp_safe_memcpy_at m dst from src len k (rw (length-bytes from src len) at l))
      (Holds-bytes from src len)

pub Holds-take : (m : Memory) (a n : ℕ) (xs : List ℕ) → Holds m a xs → Holds m a (take n xs)
Holds-take m a zero xs h = tt
Holds-take m a (suc n) [] h = tt
Holds-take m a (suc n) (x ∷ xs) h = (h.0, Holds-take m (a + 1) n xs h.1)

set_from_ne :
    (m : Memory) (dst val i n j : ℕ)
    → (j < dst + i) ⊎ (dst + i + n ≤ j)
    → set_from m dst val i n j ≡ m j
unfolding set_from
set_from_ne m dst val i zero j h = refl
set_from_ne m dst val i (suc n) j h =
    ground (arith, set_from_ne (store m (dst + i) val) dst val (i + 1) n j)

set_from_at :
    (m : Memory) (dst val i n j : ℕ)
    → dst + i ≤ j
    → j < dst + i + n
    → set_from m dst val i n j ≡ val
unfolding set_from
set_from_at m dst val i zero j h l = absurd (omega arith)
set_from_at m dst val i (suc n) j h l = elim (dec_lt (dst + i) j) [
  | yes p ↦ set_from_at (store m (dst + i) val) dst val (i + 1) n j (omega arith) (omega arith)
  | no p ↦
      let e : j ≡ dst + i = omega arith in
      ground (arith, e, set_from_ne (store m (dst + i) val) dst val (i + 1) n j)
]

-- A fill sets the bytes of its range and no other.
pub hyperamp_safe_memset_ne :
    (m : Memory) (dst val len j : ℕ)
    → (j < dst) ⊎ (dst + len ≤ j)
    → hyperamp_safe_memset m dst val len j ≡ m j
unfolding hyperamp_safe_memset
hyperamp_safe_memset_ne m dst val len j h = set_from_ne m dst val 0 len j (omega arith)

pub hyperamp_safe_memset_at :
    (m : Memory) (dst val len j : ℕ)
    → dst ≤ j
    → j < dst + len
    → hyperamp_safe_memset m dst val len j ≡ val
unfolding hyperamp_safe_memset
hyperamp_safe_memset_at m dst val len j h l =
    set_from_at m dst val 0 len j (omega arith) (omega arith)

-- A copy is its loop, which computes for a length that is a literal.
pub hyperamp_safe_memcpy-copy_from :
    (m : Memory) (dst : ℕ) (from : Memory) (src len : ℕ)
    → hyperamp_safe_memcpy m dst from src len ≡ copy_from m dst from src 0 len
unfolding hyperamp_safe_memcpy
hyperamp_safe_memcpy-copy_from m dst from src len = refl

pub bytes-append : (m : Memory) (a k l : ℕ) → bytes m a (k + l) ≡ bytes m a k ++ bytes m (a + k) l
bytes-append m a zero l = ap₂ (λ x n. bytes m x n) (omega arith) (omega arith)
bytes-append m a (suc k) l =
    let e : suc k + l ≡ suc (k + l) = omega arith in
    let e' : a + 1 + k ≡ a + suc k = omega arith in
    ap (λ n. bytes m a n) e
    ∙ ap (λ t. m a ∷ t) (bytes-append m (a + 1) k l ∙ ap (λ x. bytes m (a + 1) k ++ bytes m x l) e')

pub bytes-agree :
    (m : Memory) (a : ℕ) (w : Memory) (b n : ℕ)
    → ((k : ℕ) → k < n → m (a + k) ≡ w (b + k))
    → bytes m a n ≡ bytes w b n
bytes-agree m a w b zero h = refl
bytes-agree m a w b (suc n) h =
    ap₂ (λ x t. x ∷ t) (ap m (omega arith) ∙ h 0 (omega arith) ∙ ap w (omega arith))
      (bytes-agree m (a + 1) w (b + 1) n
        (λ k l. ap m (omega arith) ∙ h (k + 1) (omega arith) ∙ ap w (omega arith)))
