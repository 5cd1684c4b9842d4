-- ===== src/Build/Commands.antt =====
-- Device and strategy messages that src/backend_proto.c builds, against the handlers that receive such messages.
use high_speed_cproxy.Base.{subst}
use high_speed_cproxy.Base.{
  ℕ, ◌+◌, ◌<◌, ◌^◌, ◌≡◌, ◌↔◌, ◌∙◌, refl, sym, ap, inl, arith, not, ◌==◌, if◌then◌else◌, Option,
  none, some,
}
use high_speed_cproxy.Memory.{Memory, read_le, hyperamp_safe_memcpy}
use high_speed_cproxy.Memory.Copy.{hyperamp_safe_memcpy_ne, hyperamp_safe_memcpy_at}
use high_speed_cproxy.Selector.{Ret, process_ok, process_error}
use high_speed_cproxy.Control.{
  DevMsgHeader, dev_header_at, dev_msg_payload_len, has_length, backend_proxy_dev_msg_process,
  backend_proxy_strgy_msg_process,
}
use high_speed_cproxy.Control.Accepted.{IsDevCommand, IsStrgyCommand, control_accepts}
use high_speed_cproxy.Build.{put_words, build_proxy_dev_message, build_proxy_strgy_message}
use high_speed_cproxy.Build.Words.{read_u16-agree, put_words_ne, put_words_read}

-- The members have the width of their C type.
pub record IsDevHeader (hdr : DevMsgHeader) : Type 0 where
  pub version_u16 : hdr.version < 2 ^ 16
  pub msg_type_u16 : hdr.msg_type < 2 ^ 16
  pub msg_id_u16 : hdr.msg_id < 2 ^ 16
  pub action_type_u16 : hdr.action_type < 2 ^ 16
  pub payload_len_u16 : hdr.payload_len < 2 ^ 16

-- A buffer as it is read from an address on.
abbrev pub from_addr : Memory → ℕ → Memory
from_addr m a j = m (a + j)

-- The bytes that a header and a payload leave behind them in a buffer.
abbrev pub written : DevMsgHeader → (payload : Memory) → Memory → (a : ℕ) → Memory
written hdr payload m a =
    hyperamp_safe_memcpy
      (put_words m a hdr.version hdr.msg_type hdr.msg_id hdr.action_type hdr.payload_len) (a + 10)
      payload 0 hdr.payload_len

-- From `a` on the buffer reads as the header and then the payload, and below `a` it is what it was.
pub record Carries (hdr : DevMsgHeader) (payload m : Memory) (a : ℕ) (m' : Memory) : Type 0 where
  pub header : dev_header_at (from_addr m' a) ≡ hdr
  pub content : (k : ℕ) → k < hdr.payload_len → m' (a + 10 + k) ≡ payload k
  pub below : (j : ℕ) → j < a → m' j ≡ m j

module _ (hdr : DevMsgHeader) (w : IsDevHeader hdr) (payload m : Memory) (a : ℕ) where
  abbrev words : Memory
  words = put_words m a hdr.version hdr.msg_type hdr.msg_id hdr.action_type hdr.payload_len

  under : (j : ℕ) → j < a + 10 → written hdr payload m a j ≡ words j
  under j h = hyperamp_safe_memcpy_ne words (a + 10) payload 0 hdr.payload_len j (inl h)

  reads :
      (i : ℕ)
      → i < 9
      → read_le (from_addr (written hdr payload m a) a) i 2 ≡ read_le words (a + i) 2
  reads i h =
      read_u16-agree (from_addr (written hdr payload m a) a) i words (a + i)
        (under (a + i) (omega arith)) (under (a + (i + 1)) (omega arith) ∙ ap words (omega arith))

  written-Carries : Carries hdr payload m a (written hdr payload m a)
  unfolding dev_header_at
  written-Carries =
      let (r0, r1, r2, r3, r4) =
        put_words_read m a hdr.version hdr.msg_type hdr.msg_id hdr.action_type hdr.payload_len
          w.version_u16 w.msg_type_u16 w.msg_id_u16 w.action_type_u16 w.payload_len_u16 in
      record {
        header =
            rw
              (
                reads 0 (omega arith) ∙ ap (λ b. read_le words b 2) (omega arith) ∙ r0,
                reads 2 (omega arith) ∙ r1,
                reads 4 (omega arith) ∙ r2,
                reads 6 (omega arith) ∙ r3,
                reads 8 (omega arith) ∙ r4,
              )
              refl;
        content = λ k l.
            hyperamp_safe_memcpy_at words (a + 10) payload 0 hdr.payload_len k l
            ∙ ap payload (omega arith);
        below = λ j l.
            under j (omega arith)
            ∙ put_words_ne m a hdr.version hdr.msg_type hdr.msg_id hdr.action_type hdr.payload_len j
                (inl l);
      }

-- Where the two comparisons of a builder succeed.
abbrev pub IsFitting : Option ℕ → (payload_len : ℕ) → DevMsgHeader → Type 0
IsFitting corr_len payload_len hdr = (corr_len ≡ some payload_len) × (payload_len ≡ hdr.payload_len)

-- What both builders are.
abbrev checked_build :
    Option ℕ
    → DevMsgHeader
    → (payload : Memory) → (payload_len : ℕ) → Memory
    → (a : ℕ) → Ret × Memory
checked_build corr_len hdr payload payload_len m a =
    if not (has_length corr_len payload_len)
    then (process_error, m)
    else (if not (payload_len == hdr.payload_len) then (process_error, m) else (
      process_ok,
      hyperamp_safe_memcpy
          (put_words m a hdr.version hdr.msg_type hdr.msg_id hdr.action_type payload_len) (a + 10)
          payload 0 payload_len,
    ))

module _ (hdr : DevMsgHeader) (payload : Memory) (payload_len : ℕ) (m : Memory) (a : ℕ) where
  checked_build-IsFitting :
      (corr_len : Option ℕ)
      → (checked_build corr_len hdr payload payload_len m a).0 ≡ process_ok
      → IsFitting corr_len payload_len hdr
  checked_build-IsFitting none e = absurd (ground (arith, e))
  checked_build-IsFitting (some n) e = (ap some (ground (arith, e)), ground (arith, e))

  IsFitting-checked_build :
      (corr_len : Option ℕ)
      → IsFitting corr_len payload_len hdr
      → checked_build corr_len hdr payload payload_len m a ≡ (process_ok, written hdr payload m a)
  IsFitting-checked_build corr_len (e, f) = rw (e, f) (ground arith)

module _ (hdr : DevMsgHeader) (w : IsDevHeader hdr) (payload : Memory) (payload_len : ℕ)
    (m : Memory) (a : ℕ) where
  abbrev dev_message : Ret × Memory
  dev_message = build_proxy_dev_message hdr payload payload_len m a

  abbrev strgy_message : Ret × Memory
  strgy_message = build_proxy_strgy_message hdr payload payload_len m a

  dev_commands :
      dev_msg_payload_len hdr.msg_type hdr.action_type ≡ some hdr.payload_len
      → IsDevCommand hdr ↔ (hdr.version ≡ 1) × (hdr.action_type ≡ 0)
  unfolding dev_msg_payload_len
  dev_commands e = (λ c. (c.0, c.1), λ c. ground (arith, e, c))

  strgy_commands :
      dev_msg_payload_len hdr.msg_type hdr.action_type ≡ some hdr.payload_len
      → IsStrgyCommand hdr ↔ (hdr.version ≡ 1) × (hdr.action_type ≡ 0) × (hdr.msg_type ≡ 0)
  unfolding dev_msg_payload_len
  strgy_commands e = (λ c. ground (arith, e, c), λ c. ground (arith, e, c))

  -- The builder of device messages and that of strategy messages both accept a header and a payload exactly if the payload
  -- has the length that DEV_MSG_PAYLOAD_LEN gives for the header and the header gives the same length. What they then
  -- write is read back as the header and the payload, and nothing before it changes. The backend's handler of device
  -- messages accepts every device command of version 1 built this way; its handler of strategy messages accepts
  -- only those that set a strategy, so that no query of the strategy that the builder accepts is ever accepted.
  pub commands_built :
      ((dev_message.0 ≡ process_ok)
        ↔ IsFitting (dev_msg_payload_len hdr.msg_type hdr.action_type) payload_len hdr)
      × ((strgy_message.0 ≡ process_ok)
          ↔ IsFitting (dev_msg_payload_len hdr.msg_type hdr.action_type) payload_len hdr)
      × (dev_message.0 ≡ process_ok
          → Carries hdr payload m a dev_message.1
            × ((backend_proxy_dev_msg_process (from_addr dev_message.1 a) ≡ process_ok)
                ↔ (hdr.version ≡ 1) × (hdr.action_type ≡ 0)))
      × (strgy_message.0 ≡ process_ok
          → Carries hdr payload m a strgy_message.1
            × ((backend_proxy_strgy_msg_process (from_addr strgy_message.1 a) ≡ process_ok)
                ↔ (hdr.version ≡ 1) × (hdr.action_type ≡ 0) × (hdr.msg_type ≡ 0)))
  unfolding build_proxy_dev_message build_proxy_strgy_message
  commands_built = (
    (checks, λ f. ap (λ r. r.0) (built f)),
    (checks, λ f. ap (λ r. r.0) (built f)),
    (λ e. rw (built (checks e)) (
      carried,
      back IsDevCommand carried.header (control_accepts (from_addr (written hdr payload m a) a)).0
          (dev_commands (length_known e)),
    )),
    (λ e. rw (built (checks e)) (
      carried,
      back IsStrgyCommand carried.header (control_accepts (from_addr (written hdr payload m a) a)).1
          (strgy_commands (length_known e)),
    )),
  )
    where
      checks :
          dev_message.0 ≡ process_ok
          → IsFitting (dev_msg_payload_len hdr.msg_type hdr.action_type) payload_len hdr
      checks =
          checked_build-IsFitting hdr payload payload_len m a
            (dev_msg_payload_len hdr.msg_type hdr.action_type)

      built :
          IsFitting (dev_msg_payload_len hdr.msg_type hdr.action_type) payload_len hdr
          → dev_message ≡ (process_ok, written hdr payload m a)
      built =
          IsFitting-checked_build hdr payload payload_len m a
            (dev_msg_payload_len hdr.msg_type hdr.action_type)

      carried : Carries hdr payload m a (written hdr payload m a)
      carried = written-Carries hdr w payload m a

      length_known :
          dev_message.0 ≡ process_ok
          → dev_msg_payload_len hdr.msg_type hdr.action_type ≡ some hdr.payload_len
      length_known e = (checks e).0 ∙ ap some (checks e).1

      back :
          (P : DevMsgHeader → Type 0) {A B : Type 0} {h : DevMsgHeader}
          → h ≡ hdr
          → A ↔ P h
          → P hdr ↔ B
          → A ↔ B
      back P e f g = (λ x. g.0 (subst P e (f.0 x)), λ y. f.1 (subst P (sym e) (g.1 y)))
