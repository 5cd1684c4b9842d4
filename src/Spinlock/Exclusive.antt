-- ===== src/Spinlock/Exclusive.antt =====
-- Any number of zones on the ARM64 path of hyperamp_spinlock_lock, hyperamp_spinlock_trylock and
-- hyperamp_spinlock_unlock (src/hyperamp_shm_queue.c), one memory access at a time.
pub mod Progress
use high_speed_cproxy.Base.{
  ℕ, ◌≡◌, ◌≢◌, refl, Bool, true, false, ◌⊎◌, inl, inr, arith, ◌==◌, if◌then◌else◌,
}

-- Where a zone stands, with the register that is live there.
pub data Pc : Type 0 where
  idle : Pc
  spinning : Pc  -- before the LDAXR of the loop of `hyperamp_spinlock_lock`
  loaded : ℕ → Pc  -- after it, with what it loaded in `tmp`
  try_loaded : ℕ → Pc  -- the same in `hyperamp_spinlock_trylock`
  entered : Pc  -- the STLXR has succeeded: the critical section, owner and count included
  releasing : Pc  -- `owner_zone_id` is reset, before the STLR

-- `reserved i`: the exclusive monitor of zone i is armed on the lock's word.
pub record System : Type 0 where
  pub lock_value : ℕ
  pub pc : ℕ → Pc
  pub reserved : ℕ → Bool

abbrev pub update {ℓ} : {A : Type ℓ} → (ℕ → A) → ℕ → A → ℕ → A
update f i a j = if i == j then a else f j

-- A store to the word, exclusive or not, disarms every monitor; an exclusive store needs its own
-- monitor armed, and may fail all the same. A load that finds the lock taken goes round again.
pub data Step (s : System) : System → Type 0 where
  call_lock : (i : ℕ) → s.pc i ≡ idle → Step s (record s { pc = update s.pc i spinning })
  load :
      (i : ℕ)
      → s.pc i ≡ spinning
      → Step s (record s {
        pc = update s.pc i (loaded s.lock_value);
        reserved = update s.reserved i true;
      })
  retry : (i v : ℕ) → s.pc i ≡ loaded v → v ≢ 0 → Step s (record s { pc = update s.pc i spinning })
  store :
      (i : ℕ)
      → s.pc i ≡ loaded 0
      → s.reserved i ≡ true
      → Step s (record { lock_value = 1; pc = update s.pc i entered; reserved = λ _. false })
  store_fails :
      (i : ℕ)
      → s.pc i ≡ loaded 0
      → Step s (record s { pc = update s.pc i spinning; reserved = update s.reserved i false })
  call_trylock :
      (i : ℕ)
      → s.pc i ≡ idle
      → Step s (record s {
        pc = update s.pc i (try_loaded s.lock_value);
        reserved = update s.reserved i true;
      })
  try_again : (i v : ℕ) → s.pc i ≡ try_loaded v → Step s (record s { pc = update s.pc i idle })
  try_store :
      (i : ℕ)
      → s.pc i ≡ try_loaded 0
      → s.reserved i ≡ true
      → Step s (record { lock_value = 1; pc = update s.pc i entered; reserved = λ _. false })
  unlock : (i : ℕ) → s.pc i ≡ entered → Step s (record s { pc = update s.pc i releasing })
  release :
      (i : ℕ)
      → s.pc i ≡ releasing
      → Step s (record { lock_value = 0; pc = update s.pc i idle; reserved = λ _. false })

-- After `hyperamp_spinlock_init`, with every zone outside.
abbrev pub start : System
start = record { lock_value = 0; pc = λ _. idle; reserved = λ _. false }

pub data Reach : System → Type 0 where
  begin : Reach start
  next : {s t : System} → Reach s → Step s t → Reach t

-- Zone i holds the lock: it is in the critical section, or on its way out of it.
abbrev pub inside : Pc → Bool
inside entered = true
inside releasing = true
inside _ = false

-- A zone inside is alone and the word is not 0; a zone that loaded 0 and whose monitor is still
-- armed knows that the word is 0.
abbrev Fresh : Pc → ℕ → Type 0
Fresh (loaded v) w = v ≡ w
Fresh (try_loaded v) w = v ≡ w
Fresh _ w = Unit

record Inv (s : System) : Type 0 where
  alone : (i j : ℕ) → inside (s.pc i) ≡ true → inside (s.pc j) ≡ true → i ≡ j
  taken : (i : ℕ) → inside (s.pc i) ≡ true → s.lock_value ≡ 1
  current : (i : ℕ) → s.reserved i ≡ true → Fresh (s.pc i) s.lock_value
  owned : (s.lock_value ≡ 0) ⊎ ((i : ℕ) × (inside (s.pc i) ≡ true))

Inv-start : Inv start
Inv-start = record {
  alone = λ i j p q. cc;
  taken = λ i p. cc;
  current = λ i p. cc;
  owned = inl refl;
}

stays_owned :
    {w : ℕ} (p q : ℕ → Pc)
    → (w ≡ 0) ⊎ ((i : ℕ) × (inside (p i) ≡ true))
    → ((i : ℕ) → inside (p i) ≡ true → inside (q i) ≡ true)
    → (w ≡ 0) ⊎ ((i : ℕ) × (inside (q i) ≡ true))
stays_owned p q (inl e) f = inl e
stays_owned p q (inr (i, h)) f = inr (i, f i h)

Step-Inv : {s t : System} → Step s t → Inv s → Inv t
Step-Inv {s} (call_lock i p) v = record {
  alone = λ a b h k. ground (arith, v.alone a b);
  taken = λ a h. ground (arith, v.taken a);
  current = λ a h. ground (arith, v.current a);
  owned = stays_owned s.pc _ v.owned (λ j h. ground arith);
}
Step-Inv {s} (load i p) v = record {
  alone = λ a b h k. ground (arith, v.alone a b);
  taken = λ a h. ground (arith, v.taken a);
  current = λ a h. ground (arith, v.current a);
  owned = stays_owned s.pc _ v.owned (λ j h. ground arith);
}
Step-Inv {s} (retry i n p h) v = record {
  alone = λ a b h k. ground (arith, v.alone a b);
  taken = λ a h. ground (arith, v.taken a);
  current = λ a h. ground (arith, v.current a);
  owned = stays_owned s.pc _ v.owned (λ j h. ground arith);
}
Step-Inv {s} (store i p r) v = record {
  alone = λ a b h k. ground (arith, v.taken a, v.taken b, v.current i);
  taken = λ a h. ground (arith, v.taken a);
  current = λ a h. cc;
  owned = inr (i, ground arith);
}
Step-Inv {s} (store_fails i p) v = record {
  alone = λ a b h k. ground (arith, v.alone a b);
  taken = λ a h. ground (arith, v.taken a);
  current = λ a h. ground (arith, v.current a);
  owned = stays_owned s.pc _ v.owned (λ j h. ground arith);
}
Step-Inv {s} (call_trylock i p) v = record {
  alone = λ a b h k. ground (arith, v.alone a b);
  taken = λ a h. ground (arith, v.taken a);
  current = λ a h. ground (arith, v.current a);
  owned = stays_owned s.pc _ v.owned (λ j h. ground arith);
}
Step-Inv {s} (try_again i n p) v = record {
  alone = λ a b h k. ground (arith, v.alone a b);
  taken = λ a h. ground (arith, v.taken a);
  current = λ a h. ground (arith, v.current a);
  owned = stays_owned s.pc _ v.owned (λ j h. ground arith);
}
Step-Inv {s} (try_store i p r) v = record {
  alone = λ a b h k. ground (arith, v.taken a, v.taken b, v.current i);
  taken = λ a h. ground (arith, v.taken a);
  current = λ a h. cc;
  owned = inr (i, ground arith);
}
Step-Inv {s} (unlock i p) v = record {
  alone = λ a b h k. ground (arith, v.alone a b, v.alone i b, v.alone a i);
  taken = λ a h. ground (arith, v.taken a, v.taken i);
  current = λ a h. ground (arith, v.current a);
  owned = inr (i, ground arith);
}
Step-Inv {s} (release i p) v = record {
  alone = λ a b h k. ground (arith, v.alone a b);
  taken = λ a h. ground (arith, v.alone a i, v.taken a);
  current = λ a h. cc;
  owned = inl refl;
}

Reach-Inv : {s : System} → Reach s → Inv s
Reach-Inv begin = Inv-start
Reach-Inv (next r st) = Step-Inv st (Reach-Inv r)

-- In every reachable state of the ARM64 lock, whatever the number of zones and the order of their
-- memory accesses, at most one zone holds the lock, and the lock's word is 1 while one does.
pub mutual_exclusion :
    {s : System}
    → Reach s
    → (i j : ℕ) → inside (s.pc i) ≡ true
    → inside (s.pc j) ≡ true
    → (i ≡ j) × (s.lock_value ≡ 1)
mutual_exclusion r i j p q = let v = Reach-Inv r in (v.alone i j p q, v.taken i p)

pub Reach-owned : {s : System} → Reach s → (s.lock_value ≡ 0) ⊎ ((i : ℕ) × (inside (s.pc i) ≡ true))
Reach-owned r = (Reach-Inv r).owned
