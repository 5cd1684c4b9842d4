-- ===== src/Spinlock/Examples.antt =====
-- Runs of the spinlock with two zones.
use high_speed_cproxy.Base.{ℕ, ◌≡◌, ◌≢◌, ◌⊎◌, refl, true, false, arith}
use high_speed_cproxy.Spinlock.{
  hyperamp_spinlock_init, hyperamp_spinlock_trylock, hyperamp_spinlock_unlock, hyperamp_ok,
  hyperamp_again,
}
use high_speed_cproxy.Spinlock.Exclusive.{
  System, Reach, begin, next, call_lock, load, spinning, update, inside, loaded, entered, store,
  start, mutual_exclusion,
}
use high_speed_cproxy.Spinlock.Exclusive.Progress.{Run, asking, never_lost}
use high_speed_cproxy.Spinlock.Plain

-- A lock with rubbish in it, initialised, is taken once and not twice, and unlocking frees it.
lock_tests :
    let fresh =
      hyperamp_spinlock_init
        (record { lock_value = 9; owner_zone_id = 9; lock_count = 9; contention_count = 9 }) in
    ((hyperamp_spinlock_trylock fresh 1).0 ≡ hyperamp_ok)
    × ((hyperamp_spinlock_trylock (hyperamp_spinlock_trylock fresh 1).1 0).0 ≡ hyperamp_again)
    × ((hyperamp_spinlock_unlock (hyperamp_spinlock_trylock fresh 1).1).lock_value ≡ 0)
unfolding hyperamp_spinlock_init hyperamp_spinlock_trylock hyperamp_spinlock_unlock
lock_tests = (refl, refl, refl)

-- Zone 0 asks for the lock, loads the word and enters.
abbrev called : System
called = record start { pc = update start.pc 0 spinning }

abbrev loading : System
loading = record called {
  pc = update called.pc 0 (loaded 0);
  reserved = update called.reserved 0 true;
}

abbrev inside0 : System
inside0 = record { lock_value = 1; pc = update loading.pc 0 entered; reserved = λ _. false }

run : Reach inside0
run = next (next (next begin (call_lock 0 refl)) (load 0 refl)) (store 0 refl refl)

mutual_exclusion_example : (◌≡◌ {A = ℕ} 0 0) × (inside0.lock_value ≡ 1)
mutual_exclusion_example = mutual_exclusion run 0 0 refl refl

-- Zone 1 asks for the lock while zone 0 is inside.
abbrev waiting : System
waiting = record inside0 { pc = update inside0.pc 1 spinning }

never_lost_example :
    ((waiting.lock_value ≡ 0) ⊎ ((i : ℕ) × (inside (waiting.pc i) ≡ true)))
    × ((i : ℕ) → asking (waiting.pc i) ≡ true → (t : System) × Run waiting t × (t.pc i ≡ entered))
never_lost_example = never_lost (next run (call_lock 1 refl))

zero_one : ◌≢◌ {A = ℕ} 0 1
zero_one e = absurd (omega (arith, e))

both_enter_example :
    (s : Plain.System) × Plain.Reach s × (s.pc 0 ≡ Plain.entered) × (s.pc 1 ≡ Plain.entered)
both_enter_example = Plain.both_enter 0 1 zero_one
