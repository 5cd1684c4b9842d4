-- ===== src/Message/Header.antt =====
-- The outer header of include/message.h survives being written and read.
use high_speed_cproxy.Base.{ℕ, ◌+◌, ◌<◌, ◌≡◌, ◌^◌, refl, arith}
use high_speed_cproxy.Memory.{Memory, read_le, write_le}
use high_speed_cproxy.Message.{ProxyMsgHeader, header_at, put_header}

-- The members have the widths of their C types.
pub record IsHeader (hdr : ProxyMsgHeader) : Type 0 where
  pub frontend_u16 : hdr.frontend_sess_id < 2 ^ 16
  pub backend_u16 : hdr.backend_sess_id < 2 ^ 16
  pub payload_u16 : hdr.payload_len < 2 ^ 16

module _ (m : Memory) (hdr : ProxyMsgHeader) (h : IsHeader hdr) where
  frontend_lem : read_le (put_header m hdr) 2 2 ≡ hdr.frontend_sess_id
  unfolding read_le write_le put_header
  frontend_lem = omega (arith, h.frontend_u16)

  backend_lem : read_le (put_header m hdr) 4 2 ≡ hdr.backend_sess_id
  unfolding read_le write_le put_header
  backend_lem = omega (arith, h.backend_u16)

  payload_lem : read_le (put_header m hdr) 6 2 ≡ hdr.payload_len
  unfolding read_le write_le put_header
  payload_lem = omega (arith, h.payload_u16)

-- A header whose members have the widths of their C types is read back as it was written, and no byte of the
-- payload, which begins at byte 8, changes.
pub header_at-put_header :
    (m : Memory) (hdr : ProxyMsgHeader)
    → IsHeader hdr
    → (header_at (put_header m hdr) ≡ hdr) × ((j : ℕ) → put_header m hdr (8 + j) ≡ m (8 + j))
unfolding header_at put_header write_le read_le
header_at-put_header m hdr h =
    (rw (frontend_lem m hdr h, backend_lem m hdr h, payload_lem m hdr h) refl, λ j. ground arith)
