-- ===== src/Shm/Slots.antt =====
-- The messages that the slots of a shared-memory queue hold, from the slot read next on.
use native.Mathlib.Nat.{mod-add-mod, mod-eq_of_lt, mod-eq-sub-mod, add-zero}
use high_speed_cproxy.Base.{
  ℕ, suc, ◌+◌, ◌-◌, ◌*◌, ◌%◌, ◌≤◌, ◌<◌, ◌≡◌, ◌≢◌, ap, ◌∙◌, ◌⊎◌, List, [], ◌∷◌, ◌++◌, arith, length,
  dec_lt, subst,
}
use high_speed_cproxy.Memory.{Memory}
use high_speed_cproxy.Memory.Copy.{Holds, Holds-agree}
use high_speed_cproxy.Shm.Bounds.{slots_apart}

-- Fewer than `cap` steps round the slots do not come back to the start.
add-mod-ne : {cap t k : ℕ} → t < cap → suc k < cap → t ≢ (t + suc k) % cap
add-mod-ne {cap} {t} {k} ht hk = elim (dec_lt (t + suc k) cap) [
  | yes p ↦ omega (arith, mod-eq_of_lt p)
  | no p ↦ omega (
    arith,
    mod-eq-sub-mod {n = t + suc k} {m = cap} (omega arith),
    mod-eq_of_lt {n = t + suc k - cap} {m = cap} (omega arith),
  )
]

pub add-mod-suc : (cap t n : ℕ) → (t + suc n) % cap ≡ ((t + 1) % cap + n) % cap
add-mod-suc cap t n = rw mod-add-mod (ap (λ k. k % cap) (omega arith))

module _ (base bs cap : ℕ) where
  -- Slot `t` begins with the first message, the slot after it with the next, round at `cap`.
  abbrev pub Slots : Memory → ℕ → List (List ℕ) → Type 0
  Slots m t [] = Unit
  Slots m t (x ∷ xs) =
      (length x ≤ bs) × Holds m (base + (t + 1) * bs) x × Slots m ((t + 1) % cap) xs

  -- Writing into the slot just past the messages leaves them as they are.
  pub Slots-agree :
      (m w : Memory) (h t : ℕ) (ms : List (List ℕ))
      → ((j : ℕ) → (j < base + (h + 1) * bs) ⊎ (base + (h + 1) * bs + bs ≤ j) → w j ≡ m j)
      → t < cap
      → length ms < cap
      → h ≡ (t + length ms) % cap
      → Slots m t ms
      → Slots w t ms
  Slots-agree m w h t [] agree ht hn e p = tt
  Slots-agree m w h t (x ∷ xs) agree ht hn e p = (
    p.0,
    Holds-agree m a w a x
        (λ k l. agree (a + k) (slots_apart base bs t h k apart (omega (arith, p.0)))) p.1,
    Slots-agree m w h ((t + 1) % cap) xs agree (omega arith) (omega arith)
        (e ∙ add-mod-suc cap t (length xs)) p.2,
  )
    where
      a : ℕ
      a = base + (t + 1) * bs

      apart : t ≢ h
      apart = rw e (add-mod-ne ht hn)

  -- A message in the slot just past them comes last.
  pub Slots-append :
      (m : Memory) (h t : ℕ) (ms : List (List ℕ)) (x : List ℕ)
      → t < cap
      → h ≡ (t + length ms) % cap
      → Slots m t ms
      → length x ≤ bs
      → Holds m (base + (h + 1) * bs) x
      → Slots m t (ms ++ (x ∷ []))
  Slots-append m h t [] x ht e p lx hx =
      (lx, subst (λ i. Holds m (base + (i + 1) * bs) x) (e ∙ rw (add-zero, mod-eq_of_lt ht)) hx, tt)
  Slots-append m h t (y ∷ ys) x ht e p lx hx = (
    p.0,
    p.1,
    Slots-append m h ((t + 1) % cap) ys x (omega arith) (e ∙ add-mod-suc cap t (length ys)) p.2 lx
        hx,
  )
