-- ===== src/Transfer/Split.antt =====
-- high_speed_data_process_f2b of src/session_pool.c: what of a session's messages goes to its socket.
use high_speed_cproxy.Base.{
  ℕ, ◌+◌, ◌-◌, ◌≤◌, ◌≡◌, ◌≢◌, refl, ap, Bool, true, false, Option, none, some, List, [], ◌∷◌, ◌++◌,
  arith, ltb, ltb→lt, if◌then◌else◌,
}
use high_speed_cproxy.Selector.{Ret, process_ok, process_error, process_again}
use high_speed_cproxy.Pool.{SessMsgSeg}
use high_speed_cproxy.Transfer.{has_bytes, f2b_loop, high_speed_data_process_f2b}

-- The segments with something to send.
abbrev pub kept : List SessMsgSeg → List SessMsgSeg
kept [] = []
kept (seg ∷ segs) = let rest = kept segs in if has_bytes seg then seg ∷ rest else rest

-- Their bytes.
abbrev pub total : List SessMsgSeg → ℕ
total [] = 0
total (seg ∷ segs) = seg.len + total segs

-- What has been handed to `send` and what is left make up `full`, in order; after an error the first
-- segment left is the one whose `send` failed.
abbrev pub IsSplit : List SessMsgSeg → Ret → List SessMsgSeg → List SessMsgSeg → Type 0
IsSplit full process_ok left sent = (left ≡ []) × (sent ≡ full)
IsSplit full process_again left sent = (left ≢ []) × (sent ++ kept left ≡ full)
IsSplit full process_error left sent =
    (seg : SessMsgSeg) × (before rest : List SessMsgSeg) × (left ≡ seg ∷ rest)
    × (sent ≡ before ++ (seg ∷ []))
    × (before ++ kept left ≡ full)

-- A segment sent before the others.
IsSplit-cons :
    (seg : SessMsgSeg) (full : List SessMsgSeg) (ret : Ret) (left sent : List SessMsgSeg)
    → IsSplit full ret left sent
    → IsSplit (seg ∷ full) ret left (seg ∷ sent)
IsSplit-cons seg full process_ok left sent p = (p.0, ap (λ l. seg ∷ l) p.1)
IsSplit-cons seg full process_again left sent p = (p.0, ap (λ l. seg ∷ l) p.1)
IsSplit-cons seg full process_error left sent p =
    (p.0, seg ∷ p.1, p.2, p.3, ap (λ l. seg ∷ l) p.4, ap (λ l. seg ∷ l) p.5)

-- What a call of high_speed_data_process_f2b returns.
abbrev pub Parts : List SessMsgSeg → Ret × List SessMsgSeg × List SessMsgSeg → Type 0
Parts full r = IsSplit full r.0 r.1 r.2

module _ (send : SessMsgSeg → Option ℕ) where
  loop_step :
      (has fits : Bool) (o : Option ℕ) (buf_size : ℕ) (seg : SessMsgSeg) (segs : List SessMsgSeg)
      → kept (seg ∷ segs) ≡ (if has then seg ∷ kept segs else kept segs)
      → ((n : ℕ) → Parts (kept segs) (f2b_loop send n segs))
      → Parts (if has then seg ∷ kept segs else kept segs) (
          if has
          then (if fits
              then elim o [
                | none ↦ (process_error, seg ∷ segs, seg ∷ [])
                | some ret ↦
                    let (code, left, sent) = f2b_loop send (buf_size - ret) segs in
                    (code, left, seg ∷ sent)
              ]
              else (process_again, seg ∷ segs, []))
          else f2b_loop send buf_size segs)
  loop_step true true none buf_size seg segs h ih = (seg, [], segs, refl, refl, h)
  loop_step true true (some ret) buf_size seg segs h ih =
      let (code, left, sent) = f2b_loop send (buf_size - ret) segs in
      IsSplit-cons seg (kept segs) code left sent (ih (buf_size - ret))
  loop_step true false o buf_size seg segs h ih = (λ e. absurd (ground (arith, e)), h)
  loop_step false fits o buf_size seg segs h ih = ih buf_size

  loop_split :
      (buf_size : ℕ) (segs : List SessMsgSeg) → Parts (kept segs) (f2b_loop send buf_size segs)
  unfolding f2b_loop
  loop_split buf_size [] = (refl, refl)
  loop_split buf_size (seg ∷ segs) =
      loop_step (has_bytes seg) (ltb seg.len buf_size) (send seg) buf_size seg segs refl
        (λ n. loop_split n segs)

-- high_speed_data_process_f2b hands the session's segments with something to send to its socket in order,
-- each once, and skips the others. With BACKEND_PROXY_PROCESS_OK none is left; with
-- BACKEND_PROXY_PROCESS_AGAIN those handed over and those left make up all; with an error the first one left
-- is the last one handed over, or, if the buffer's size cannot be read, all are left and none is handed over.
pub f2b_in_order :
    (send : SessMsgSeg → Option ℕ) (buf_size : Option ℕ) (segs : List SessMsgSeg)
    → ((n : ℕ)
        → buf_size ≡ some n
        → Parts (kept segs) (high_speed_data_process_f2b send buf_size segs))
      × (buf_size ≡ none
          → high_speed_data_process_f2b send buf_size segs ≡ (process_error, segs, []))
unfolding high_speed_data_process_f2b
f2b_in_order send none segs = (λ n e. absurd (ground (arith, e)), λ e. refl)
f2b_in_order send (some n) segs = (λ m e. loop_split send n segs, λ e. absurd (ground (arith, e)))

module _ (send : SessMsgSeg → Option ℕ)
    (whole : (seg : SessMsgSeg) (n : ℕ) → send seg ≡ some n → n ≡ seg.len) where
  budget_step :
      (has fits : Bool) (o : Option ℕ) (buf_size : ℕ) (seg : SessMsgSeg) (segs : List SessMsgSeg)
      → ltb seg.len buf_size ≡ fits
      → send seg ≡ o
      → ((n : ℕ) → total (f2b_loop send n segs).2 ≤ n)
      → total
          (if has
            then (if fits
                then elim o [
                  | none ↦ (process_error, seg ∷ segs, seg ∷ [])
                  | some ret ↦
                      let (code, left, sent) = f2b_loop send (buf_size - ret) segs in
                      (code, left, seg ∷ sent)
                ]
                else (process_again, seg ∷ segs, []))
            else f2b_loop send buf_size segs).2
        ≤ buf_size
  budget_step true true none buf_size seg segs h e ih = omega (arith, ltb→lt seg.len buf_size h)
  budget_step true true (some ret) buf_size seg segs h e ih =
      omega (arith, ltb→lt seg.len buf_size h, whole seg ret e, ih (buf_size - ret))
  budget_step true false o buf_size seg segs h e ih = omega arith
  budget_step false fits o buf_size seg segs h e ih = ih buf_size

  loop_budget :
      (buf_size : ℕ) (segs : List SessMsgSeg) → total (f2b_loop send buf_size segs).2 ≤ buf_size
  unfolding f2b_loop
  loop_budget buf_size [] = omega arith
  loop_budget buf_size (seg ∷ segs) =
      budget_step (has_bytes seg) (ltb seg.len buf_size) (send seg) buf_size seg segs refl refl
        (λ n. loop_budget n segs)

-- When `send` takes all the bytes it is given, high_speed_data_process_f2b hands over no more bytes than the
-- socket's send buffer holds.
pub f2b_budget :
    (send : SessMsgSeg → Option ℕ) (buf_size : ℕ) (segs : List SessMsgSeg)
    → ((seg : SessMsgSeg) (n : ℕ) → send seg ≡ some n → n ≡ seg.len)
    → total (high_speed_data_process_f2b send (some buf_size) segs).2 ≤ buf_size
unfolding high_speed_data_process_f2b
f2b_budget send buf_size segs whole = loop_budget send whole buf_size segs
