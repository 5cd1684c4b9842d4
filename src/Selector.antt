-- ===== src/Selector.antt =====
-- The choice of a network device in src/engine.c: choose_dev_round_robin, choose_dev_latency_first,
-- choose_dev_throughput_first, the table of selectors and choose_hs_net_dev. A NULL pointer is `none`.
pub mod Rotation
mod Examples
use Prim.Native.Nat.{bit_and}
use high_speed_cproxy.Base.{
  ℕ, zero, suc, ◌+◌, ◌%◌, ◌^◌, ◌≡◌, Bool, true, false, Option, none, some, ltb, ◌==◌, if◌then◌else◌,
}

-- BACKEND_PROXY_PROCESS_OK, _ERROR and _AGAIN.
pub data Ret : Type 0 where
  process_ok process_error process_again : Ret

-- `HSDevSelector.choose_dev`: the table has three entries, in this order.
pub data Choose : Type 0 where
  round_robin latency_first throughput_first : Choose

-- What the selectors read of the engine. `dev_id` gives the id of each entry of `dev_set`.
pub record BackendEngine : Type 0 where
  pub dev_num : ℕ
  pub active_mask : ℕ
  pub selector_id : ℕ
  pub dev_id : ℕ → ℕ

-- `active_mask &= 1u << pos`.
abbrev pub masked : ℕ → ℕ → ℕ
masked active_mask pos = bit_and active_mask (2 ^ pos)

-- `last_pos++; if (dev_num == last_pos) last_pos = 0;`
abbrev pub next_pos : ℕ → ℕ → ℕ
next_pos dev_num last_pos = if dev_num == last_pos + 1 then 0 else last_pos + 1

-- The first loop, with the rounds left: the position found, or `none`.
pub first_loop : (active_mask cnt rounds : ℕ) → Option ℕ
first_loop active_mask cnt zero = none
first_loop active_mask cnt (suc rounds) =
    let active_mask = masked active_mask cnt in
    let rest = first_loop active_mask (cnt + 1) rounds in
    if active_mask == 0 then rest else some cnt

-- The second loop: whether it found a device, and where `last_pos` stands after it.
pub next_loop : (dev_num active_mask last_pos rounds : ℕ) → Bool × ℕ
next_loop dev_num active_mask last_pos zero = (false, last_pos)
next_loop dev_num active_mask last_pos (suc rounds) =
    let last_pos = next_pos dev_num last_pos in
    let active_mask = masked active_mask last_pos in
    let rest = next_loop dev_num active_mask last_pos rounds in
    if active_mask == 0 then rest else (true, last_pos)

-- The static `last_pos` (`none` for -1) before and after; `*dev_id` is written only on success.
pub choose_dev_round_robin : BackendEngine → (last_pos : Option ℕ) → Ret × Option ℕ × Option ℕ
unfolding first_loop next_loop
choose_dev_round_robin eng none =
    if eng.dev_num == 0
    then (process_error, none, none)
    else (elim (first_loop eng.active_mask 0 eng.dev_num) [
      | none ↦ (process_error, none, none)
      | some pos ↦ (process_ok, some pos, some (eng.dev_id pos % 2 ^ 16))
    ])
choose_dev_round_robin eng (some last_pos) =
    if eng.dev_num == 0
    then (process_error, some last_pos, none)
    else (let (found, pos) = next_loop eng.dev_num eng.active_mask last_pos eng.dev_num in
        if found
        then (process_ok, some pos, some (eng.dev_id pos % 2 ^ 16))
        else (process_error, some pos, none))

pub choose_dev_latency_first : Ret × Option ℕ
choose_dev_latency_first = (process_ok, some 0)

pub choose_dev_throughput_first : Ret × Option ℕ
choose_dev_throughput_first = (process_ok, some 0)

-- `hs_dev_sel`; past its end the code reads what it may not.
pub hs_dev_sel : ℕ → Option Choose
hs_dev_sel zero = some round_robin
hs_dev_sel (suc zero) = some latency_first
hs_dev_sel (suc (suc zero)) = some throughput_first
hs_dev_sel (suc (suc (suc n))) = none

pub choose_with : BackendEngine → Option ℕ → Choose → Ret × Option ℕ × Option ℕ
unfolding choose_dev_round_robin choose_dev_latency_first choose_dev_throughput_first
choose_with eng last_pos round_robin = choose_dev_round_robin eng last_pos
choose_with eng last_pos latency_first =
    let (ret, dev_id) = choose_dev_latency_first in (ret, last_pos, dev_id)
choose_with eng last_pos throughput_first =
    let (ret, dev_id) = choose_dev_throughput_first in (ret, last_pos, dev_id)

-- What the caller does with the result of the selector: an id out of range is an error.
pub checked : ℕ → Ret × Option ℕ × Option ℕ → Ret × Option ℕ × Option ℕ
checked dev_num (process_ok, last_pos, some dev_id) =
    if ltb dev_id dev_num
    then (process_ok, last_pos, some dev_id)
    else (process_error, last_pos, some dev_id)
checked dev_num (_, last_pos, dev_id) = (process_error, last_pos, dev_id)

pub choose_hs_net_dev : BackendEngine → Option ℕ → Option (Ret × Option ℕ × Option ℕ)
unfolding hs_dev_sel checked choose_with
choose_hs_net_dev eng last_pos = elim (hs_dev_sel eng.selector_id) [
  | none ↦ none
  | some sel ↦ some (checked eng.dev_num (choose_with eng last_pos sel))
]
