-- ===== src/Iot/Devices/Queued.antt =====
-- The shared-memory queue of src/shared_mem_io.c under a sequence of sends whose results are not used.
use mathlib.Core.List.{append-nil, append_assoc}
use high_speed_cproxy.Base.{ℕ_discrete}
use high_speed_cproxy.Iot.Devices.{to_ret}
use high_speed_cproxy.Iot.Devices.{hyperamp_queue_enqueue}
use high_speed_cproxy.Base.{sym}
use high_speed_cproxy.Base.{length-append, suc}
use high_speed_cproxy.Base.{
  ℕ, zero, suc, ◌>>=◌, ◌+◌, ◌-◌, ◌<◌, ◌≤◌, ◌≡◌, ◌∙◌, refl, ap, subst, arith, Option, some, List, [],
  ◌∷◌, ◌++◌, length, take,
}
use high_speed_cproxy.Memory.{Memory}
use high_speed_cproxy.Memory.Copy.{bytes}
use high_speed_cproxy.Shm.{Shm}
use high_speed_cproxy.Shm.Fifo.{Rep, enqueue_fifo}
use high_speed_cproxy.Selector.{Ret}

-- A queue of that capacity, with blocks that hold the longest message, that holds these messages.
pub record IsQueue (data_region capacity : ℕ) (s : Shm) (ms : List (List ℕ)) : Type 0 where
  pub rep : Rep data_region s ms
  pub places : s.capacity ≡ capacity
  pub blocks : 1064 ≤ s.block_size

-- What fits into the queue behind `ms`, with one place free.
abbrev pub fitting : (capacity : ℕ) → (ms ws : List (List ℕ)) → List (List ℕ)
fitting capacity ms ws = take (capacity - 1 - length ms) ws

-- A call that returns, and adds to a queue that holds `ms` the messages `ws`, as far as they fit.
abbrev pub IsForwarded :
    (data_region capacity : ℕ) → (ms ws : List (List ℕ)) → (call : Option Shm) → Type 0
IsForwarded data_region capacity ms ws call =
    (s' : Shm) × (call ≡ some s') × IsQueue data_region capacity s' (ms ++ fitting capacity ms ws)

take-append :
    (k : ℕ) (a b : List (List ℕ)) → take k a ++ take (k - length (take k a)) b ≡ take k (a ++ b)
take-append zero a b = refl
take-append (suc k) [] b = let e : suc k - 0 ≡ suc k = omega arith in ap (λ n. take n b) e
take-append (suc k) (x ∷ a) b =
    ap (λ t. x ∷ t) (ap (λ n. take k a ++ take n b) (omega arith) ∙ take-append k a b)

fitting-append :
    (capacity : ℕ) (ms a b : List (List ℕ))
    → (ms ++ fitting capacity ms a) ++ fitting capacity (ms ++ fitting capacity ms a) b
      ≡ ms ++ fitting capacity ms (a ++ b)
fitting-append capacity ms a b =
    let k = capacity - 1 - length ms in
    append_assoc ms (take k a) (fitting capacity (ms ++ take k a) b)
    ∙ ap (λ t. ms ++ t)
        (ap (λ n. take k a ++ take n b) (omega (arith, length-append ms (take k a)))
          ∙ take-append k a b)

fitting_room :
    (capacity : ℕ) (ms : List (List ℕ)) (w : List ℕ)
    → length ms + 1 < capacity
    → fitting capacity ms (w ∷ []) ≡ w ∷ []
fitting_room capacity ms w l = take_one (capacity - 1 - length ms) (omega arith)
  where
    take_one : (k : ℕ) → 0 < k → take k (w ∷ []) ≡ w ∷ []
    take_one zero h = absurd (omega (arith, h))
    take_one (suc zero) h = refl
    take_one (suc (suc k)) h = refl

fitting_full :
    (capacity : ℕ) (ms ws : List (List ℕ)) → length ms + 1 ≡ capacity → fitting capacity ms ws ≡ []
fitting_full capacity ms ws e =
    let z : capacity - 1 - length ms ≡ 0 = omega arith in ap (λ n. take n ws) z

module _ (data_region capacity : ℕ) where
  pub none-IsForwarded :
      (s : Shm) (ms : List (List ℕ))
      → IsQueue data_region capacity s ms
      → IsForwarded data_region capacity ms [] (some s)
  none-IsForwarded s ms q = (
    s,
    refl,
    subst (IsQueue data_region capacity s)
        (sym (ap (λ t. ms ++ t) (take-nil (capacity - 1 - length ms)) ∙ append-nil ms)) q,
  )
    where
      take-nil : (k : ℕ) → take {A = List ℕ} k [] ≡ []
      take-nil zero = refl
      take-nil (suc k) = refl

  pub then-IsForwarded :
      (ms a b : List (List ℕ)) (call : Option Shm) (next : Shm → Option Shm)
      → IsForwarded data_region capacity ms a call
      → ((s : Shm) (ms : List (List ℕ))
          → IsQueue data_region capacity s ms
          → IsForwarded data_region capacity ms b (next s))
      → IsForwarded data_region capacity ms (a ++ b) (call >>= next)
  then-IsForwarded ms a b call next (s, e, q) h =
      let (s', e', q') = h s (ms ++ fitting capacity ms a) q in
      (s', rw e e', subst (IsQueue data_region capacity s') (fitting-append capacity ms a b) q')

-- One message into the queue.
pub sent-IsForwarded :
    (data_region capacity : ℕ) (s : Shm) (ms : List (List ℕ)) (buf : Memory) (len : ℕ)
    → 0 < len
    → len ≤ 1064
    → IsQueue data_region capacity s ms
    → (call : Option (Ret × Shm))
    → call ≡ (do
      (ret, s') ← hyperamp_queue_enqueue s 0 (some buf) len data_region
      some (to_ret ret, s'))
    → IsForwarded data_region capacity ms (bytes buf 0 len ∷ []) (call >>= λ r. some r.1)
sent-IsForwarded data_region capacity s ms buf len pos short q call e =
    let (room, full) =
      enqueue_fifo data_region s ms 0 buf len q.rep pos (omega (arith, short, q.blocks)) in
    elim (ℕ_discrete (length ms + 1) capacity) [
      | yes l ↦
          let (s', e', r, b, c) = full (l ∙ sym q.places) in
          (
            s',
            rw e (rw e' refl),
            rw (fitting_full capacity ms (bytes buf 0 len ∷ []) l, append-nil ms)
                (record { rep = r; places = c ∙ q.places; blocks = omega (arith, b, q.blocks) }),
          )
      | no l ↦
          let h : length ms + 1 < capacity = omega (arith, l, q.places, q.rep.room) in
          let (s', e', r, b, c) = room (omega (arith, h, q.places)) in
          (
            s',
            rw e (rw e' refl),
            rw (fitting_room capacity ms (bytes buf 0 len) h)
                (record { rep = r; places = c ∙ q.places; blocks = omega (arith, b, q.blocks) }),
          )
    ]
