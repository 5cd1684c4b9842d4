-- ===== src/Selector/Rotation.antt =====
-- How choose_dev_round_robin of src/engine.c goes round the devices, and which ids
-- choose_hs_net_dev lets through.
use Prim.Native.Nat.{bit_and, bit_and-bitwise}
use native.Mathlib.Nat.{add-zero, mod-add-mod, mod-eq_of_lt, mod-eq-sub-mod}
use high_speed_cproxy.Base.{
  ℕ, zero, suc, ◌+◌, ◌%◌, ◌^◌, ◌≡◌, ◌≢◌, ◌<◌, refl, ap, ◌∙◌, inl, inr, true, false, Option, none,
  some, arith, ltb, Bool-cases, ltb→lt, dec_lt,
}
use high_speed_cproxy.Selector.{
  Ret, process_ok, process_error, process_again, BackendEngine, Choose, round_robin, latency_first,
  throughput_first, masked, next_pos, first_loop, next_loop, choose_dev_round_robin, hs_dev_sel,
  choose_with, checked, choose_hs_net_dev,
}

bit_and_zero : (x : ℕ) → bit_and 0 x ≡ 0
bit_and_zero x = λ i. bit_and-bitwise 0 x i

-- Once the mask has become 0, no round finds a device.
first_loop_zero : (cnt rounds : ℕ) → first_loop 0 cnt rounds ≡ none
unfolding first_loop
first_loop_zero cnt zero = refl
first_loop_zero cnt (suc rounds) = rw (bit_and_zero (2 ^ cnt)) (first_loop_zero (cnt + 1) rounds)

next_loop_zero : (dev_num last_pos rounds : ℕ) → (next_loop dev_num 0 last_pos rounds).0 ≡ false
unfolding next_loop
next_loop_zero dev_num last_pos zero = refl
next_loop_zero dev_num last_pos (suc rounds) =
    rw (bit_and_zero (2 ^ next_pos dev_num last_pos))
      (next_loop_zero dev_num (next_pos dev_num last_pos) rounds)

-- The first position that a call tests.
abbrev pub first_pos : ℕ → Option ℕ → ℕ
first_pos dev_num none = 0
first_pos dev_num (some last_pos) = next_pos dev_num last_pos

first_loop-suc :
    (mask cnt n : ℕ)
    → (masked mask cnt ≡ 0 → first_loop mask cnt (suc n) ≡ none)
      × (masked mask cnt ≢ 0 → first_loop mask cnt (suc n) ≡ some cnt)
unfolding first_loop
first_loop-suc mask cnt n = (λ e. rw e (first_loop_zero (cnt + 1) n), λ ne. ground (arith, ne))

next_loop-suc :
    (dev_num mask last_pos n : ℕ)
    → (masked mask (next_pos dev_num last_pos) ≡ 0
        → (next_loop dev_num mask last_pos (suc n)).0 ≡ false)
      × (masked mask (next_pos dev_num last_pos) ≢ 0
          → next_loop dev_num mask last_pos (suc n) ≡ (true, next_pos dev_num last_pos))
unfolding next_loop
next_loop-suc dev_num mask last_pos n =
    (λ e. rw e (next_loop_zero dev_num (next_pos dev_num last_pos) n), λ ne. ground (arith, ne))

pos_suc : (n : ℕ) → 0 < n → (k : ℕ) × (n ≡ suc k)
pos_suc zero h = absurd (omega arith)
pos_suc (suc k) h = (k, refl)

-- With at least one device, a call looks at one position only, the one after the last choice (position
-- 0 on the first call): it returns an error if that device is not active, whichever other devices are,
-- and that device's id if it is.
pub round_robin_one_try :
    (eng : BackendEngine) (last_pos : Option ℕ)
    → 0 < eng.dev_num
    → (masked eng.active_mask (first_pos eng.dev_num last_pos) ≡ 0
        → (choose_dev_round_robin eng last_pos).0 ≡ process_error)
      × (masked eng.active_mask (first_pos eng.dev_num last_pos) ≢ 0
          → choose_dev_round_robin eng last_pos ≡ (
            process_ok,
            some (first_pos eng.dev_num last_pos),
            some (eng.dev_id (first_pos eng.dev_num last_pos) % 2 ^ 16),
          ))
unfolding choose_dev_round_robin
round_robin_one_try eng none h =
    let (k, e) = pos_suc eng.dev_num h in
    let t = first_loop-suc eng.active_mask 0 k in
    (λ z. rw (e, t.0 z) (ground arith), λ z. rw (e, t.1 z) (ground arith))
round_robin_one_try eng (some last_pos) h =
    let (k, e) = pos_suc eng.dev_num h in
    let t = next_loop-suc eng.dev_num eng.active_mask last_pos k in
    (λ z. ground (arith, e, t.0 z), λ z. ground (arith, e, t.1 z))

-- The position after so many calls.
abbrev pub calls : BackendEngine → Option ℕ → ℕ → Option ℕ
calls eng last_pos zero = last_pos
calls eng last_pos (suc n) = (choose_dev_round_robin eng (calls eng last_pos n)).1

next_pos-eq-mod : (dev_num p : ℕ) → p < dev_num → next_pos dev_num p ≡ (p + 1) % dev_num
next_pos-eq-mod dev_num p h = elim (dec_lt (p + 1) dev_num) [
  | yes l ↦ ground (arith, mod-eq_of_lt l)
  | no l ↦ ground (arith, mod-eq-sub-mod {n = p + 1} {m = dev_num} (omega arith))
]

-- When every device is active, n calls after the choice of position p the selector has chosen
-- (p + n) mod dev_num: it goes round all devices in order.
pub round_robin_fair :
    (eng : BackendEngine) (p n : ℕ)
    → p < eng.dev_num
    → ((i : ℕ) → i < eng.dev_num → masked eng.active_mask i ≢ 0)
    → calls eng (some p) n ≡ some ((p + n) % eng.dev_num)
round_robin_fair eng p zero h active = rw (add-zero, mod-eq_of_lt h) refl
round_robin_fair eng p (suc n) h active =
    ap (λ o. (choose_dev_round_robin eng o).1) (round_robin_fair eng p n h active)
    ∙ (ap (λ r. r.1)
          ((round_robin_one_try eng (some q) (omega arith)).1 (active (next_pos eng.dev_num q) low))
        ∙ ap (λ k. some k) step)
  where
    q : ℕ
    q = (p + n) % eng.dev_num

    in_range : q < eng.dev_num
    in_range = omega arith

    low : next_pos eng.dev_num q < eng.dev_num
    low = rw (next_pos-eq-mod eng.dev_num q in_range) (omega arith)

    step : next_pos eng.dev_num q ≡ (p + suc n) % eng.dev_num
    step =
        next_pos-eq-mod eng.dev_num q in_range
        ∙ rw mod-add-mod (ap (λ k. k % eng.dev_num) (omega arith))

hs_dev_sel_in : (n : ℕ) → n < 3 → (sel : Choose) × (hs_dev_sel n ≡ some sel)
unfolding hs_dev_sel
hs_dev_sel_in zero h = (round_robin, refl)
hs_dev_sel_in (suc zero) h = (latency_first, refl)
hs_dev_sel_in (suc (suc zero)) h = (throughput_first, refl)
hs_dev_sel_in (suc (suc (suc n))) h = absurd (omega arith)

checked_ok :
    (dev_num : ℕ) (r : Ret × Option ℕ × Option ℕ)
    → (checked dev_num r).0 ≡ process_ok
    → (dev_id : ℕ) × ((checked dev_num r).2 ≡ some dev_id) × (dev_id < dev_num)
unfolding checked
checked_ok dev_num (process_ok, last_pos, some dev_id) e = elim (Bool-cases (ltb dev_id dev_num)) [
  | inl l ↦ (dev_id, rw l refl, ltb→lt dev_id dev_num l)
  | inr l ↦ absurd (ground (arith, l, e))
]
checked_ok dev_num (process_ok, last_pos, none) e = absurd (ground (arith, e))
checked_ok dev_num (process_error, last_pos, dev_id) e = absurd (ground (arith, e))
checked_ok dev_num (process_again, last_pos, dev_id) e = absurd (ground (arith, e))

-- For a selector of the table, choose_hs_net_dev returns, and when it returns
-- BACKEND_PROXY_PROCESS_OK it has stored the id of a device that the engine has.
choose_in_range :
    (eng : BackendEngine) (last_pos : Option ℕ)
    → eng.selector_id < 3
    → (r : Ret × Option ℕ × Option ℕ) × (choose_hs_net_dev eng last_pos ≡ some r)
      × (r.0 ≡ process_ok → (dev_id : ℕ) × (r.2 ≡ some dev_id) × (dev_id < eng.dev_num))
unfolding choose_hs_net_dev
choose_in_range eng last_pos h =
    let (sel, e) = hs_dev_sel_in eng.selector_id h in
    (
      checked eng.dev_num (choose_with eng last_pos sel),
      rw (choose_hs_net_dev, e) refl,
      checked_ok eng.dev_num (choose_with eng last_pos sel),
    )
