-- ===== src/Selector/Examples.antt =====
-- Runs of the device selectors.
use high_speed_cproxy.Base.{ℕ, zero, suc, ◌+◌, ◌%◌, ◌<◌, ◌≡◌, ◌≢◌, some, arith}
use high_speed_cproxy.Selector.{BackendEngine, masked}
use high_speed_cproxy.Selector.Rotation.{calls, round_robin_fair}

-- Three devices, with ids 10, 11 and 12 and the mask given.
abbrev engine : ℕ → BackendEngine
engine active_mask = record {
  dev_num = 3;
  active_mask = active_mask;
  selector_id = 0;
  dev_id = λ i. i + 10;
}

all_active : (i : ℕ) → i < 3 → masked 7 i ≢ 0
all_active zero h e = absurd (omega (arith, e))
all_active (suc zero) h e = absurd (omega (arith, e))
all_active (suc (suc zero)) h e = absurd (omega (arith, e))
all_active (suc (suc (suc n))) h e = absurd (omega (arith, h))

round_robin_fair_example : calls (engine 7) (some 2) 5 ≡ some ((2 + 5) % 3)
round_robin_fair_example = round_robin_fair (engine 7) 2 5 (omega arith) all_active
