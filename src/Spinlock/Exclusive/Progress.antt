-- ===== src/Spinlock/Exclusive/Progress.antt =====
-- That a zone can always get the lock on the ARM64 path of src/hyperamp_shm_queue.c, if the others let it.
use high_speed_cproxy.Base.{
  ℕ, ◌≡◌, ◌≢◌, refl, ap, ◌∙◌, Bool, true, false, ◌⊎◌, inl, inr, arith, ℕ_discrete,
}
use high_speed_cproxy.Spinlock.Exclusive.{
  Pc, spinning, loaded, entered, releasing, idle, try_loaded, System, Step, load, retry, store,
  store_fails, unlock, release, Reach, inside, Reach-owned,
}

-- Any number of steps.
pub data Run (s : System) : System → Type 0 where
  stay : Run s s
  step : {t u : System} → Run s t → Step t u → Run s u

-- A zone in the loop of hyperamp_spinlock_lock.
abbrev pub asking : Pc → Bool
asking spinning = true
asking (loaded v) = true
asking _ = false

-- Where the word is 0 a zone before its LDAXR can enter.
spinning_enters :
    (s₀ s : System) (i : ℕ)
    → Run s₀ s
    → s.lock_value ≡ 0
    → s.pc i ≡ spinning
    → (t : System) × Run s₀ t × (t.pc i ≡ entered)
spinning_enters s₀ s i r z p =
    (_, step (step r (load i p)) (store i (ground (arith, z)) (ground arith)), ground arith)

-- Also one after it, which goes round again: the exclusive store may fail.
asking_enters :
    (s₀ s : System) (i : ℕ) (c : Pc)
    → s.pc i ≡ c
    → asking c ≡ true
    → Run s₀ s
    → s.lock_value ≡ 0
    → (t : System) × Run s₀ t × (t.pc i ≡ entered)
asking_enters s₀ s i spinning p a r z = spinning_enters s₀ s i r z p
asking_enters s₀ s i (loaded v) p a r z = elim (ℕ_discrete v 0) [
  | yes e ↦ spinning_enters s₀ _ i (step r (store_fails i (p ∙ ap loaded e))) z (ground arith)
  | no n ↦ spinning_enters s₀ _ i (step r (retry i v p n)) z (ground arith)
]
asking_enters s₀ s i idle p a r z = absurd cc
asking_enters s₀ s i (try_loaded v) p a r z = absurd cc
asking_enters s₀ s i entered p a r z = absurd cc
asking_enters s₀ s i releasing p a r z = absurd cc

-- The zone inside leaves.
leaving :
    (s₀ s : System) (i j : ℕ)
    → Run s₀ s
    → s.pc j ≡ releasing
    → i ≢ j
    → (t : System) × Run s₀ t × (t.lock_value ≡ 0) × (t.pc i ≡ s.pc i)
leaving s₀ s i j r p n = (_, step r (release j p), refl, ground (arith, n))

holder_leaves :
    (s : System) (i j : ℕ) (c : Pc)
    → s.pc j ≡ c
    → inside c ≡ true
    → i ≢ j
    → (t : System) × Run s t × (t.lock_value ≡ 0) × (t.pc i ≡ s.pc i)
holder_leaves s i j entered p h n =
    let (t, r, z, same) = leaving s _ i j (step stay (unlock j p)) (ground arith) n in
    (t, r, z, same ∙ ground (arith, n))
holder_leaves s i j releasing p h n = leaving s s i j stay p n
holder_leaves s i j idle p h n = absurd cc
holder_leaves s i j spinning p h n = absurd cc
holder_leaves s i j (loaded v) p h n = absurd cc
holder_leaves s i j (try_loaded v) p h n = absurd cc

-- In every reachable state either the lock's word is 0 or some zone is inside; and for a zone that is in the loop of
-- hyperamp_spinlock_lock, wherever the others stand, some sequence of memory accesses leads from there to a state in
-- which it has entered: no order of accesses so far can have lost the lock.
pub never_lost :
    {s : System}
    → Reach s
    → ((s.lock_value ≡ 0) ⊎ ((i : ℕ) × (inside (s.pc i) ≡ true)))
      × ((i : ℕ) → asking (s.pc i) ≡ true → (t : System) × Run s t × (t.pc i ≡ entered))
never_lost {s} r = (
  Reach-owned r,
  λ i a. elim (Reach-owned r) [
    | inl z ↦ asking_enters s s i (s.pc i) refl a stay z
    | inr (j, h) ↦
        let apart : i ≢ j = λ e. ground (arith, e, a, h) in
        let (t, run, z, same) = holder_leaves s i j (s.pc j) refl h apart in
        asking_enters s t i (t.pc i) refl (ap asking same ∙ a) run z
  ],
)
