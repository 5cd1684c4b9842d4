-- ===== src/Build.antt =====
-- The construction of messages in src/backend_proto.c: build_proxy_dev_message, build_proxy_strgy_message,
-- build_proxy_sess_message, build_proxy_data_message, build_proxy_iot_message, and build_proxy_general_message
-- in the mode of all its callers, MEMORY_ALLOC_AMPQUEUE, with `ring_buf` NULL: the message is built in
-- global_amp_tx_buf and goes to the shared-memory queue.
--
-- `memcpy` copies like the queue's own loop. The C code has no check that a message fits the 4096 bytes of its
-- buffer; here a buffer has no end.
pub mod Words
pub mod Commands
pub mod General
pub mod Response
pub mod Samples
mod Examples
use high_speed_cproxy.Base.{
  ℕ, ◌+◌, Bool, true, false, not, ◌&&◌, ◌||◌, Option, none, some, ◌>>=◌, ltb, ◌==◌, if◌then◌else◌,
}
use high_speed_cproxy.Memory.{
  Memory, store, read_le, write_le, hyperamp_safe_memset, hyperamp_safe_memcpy,
}
use high_speed_cproxy.Shm.{Shm, hyperamp_queue_enqueue}
use high_speed_cproxy.Selector.{Ret, process_ok, process_error, process_again}
use high_speed_cproxy.Message.{ProxyMsgHeader}
use high_speed_cproxy.Handler.Session.{SessMsgHeader, sess_header_at, sess_msg_payload_len}
use high_speed_cproxy.Control.{DevMsgHeader, dev_header_at, dev_msg_payload_len, has_length}
use high_speed_cproxy.Transfer.{to_ret}

-- `IotMsgHeader`: six uint16_t, packed.
pub record IotMsgHeader : Type 0 where
  pub proto_ver : ℕ
  pub proto_type : ℕ
  pub opcode : ℕ
  pub dev_port_id : ℕ
  pub payload_len : ℕ
  pub reserve : ℕ

unfoldable pub iot_header_at : Memory → IotMsgHeader
iot_header_at m = record {
  proto_ver = read_le m 0 2;
  proto_type = read_le m 2 2;
  opcode = read_le m 4 2;
  dev_port_id = read_le m 6 2;
  payload_len = read_le m 8 2;
  reserve = read_le m 10 2;
}

-- `GeneralProxyMsgHeader`. The unions are their bytes: `inner_header` begins with the header of the message's
-- type, `addr_info` of `iot_addr` with the address of the IoT protocol. The other member of `iot_addr` is
-- only compared for a warning.
pub record GeneralProxyMsgHeader : Type 0 where
  pub outer_header : ProxyMsgHeader
  pub inner_header : Memory
  pub addr_info : Memory
  pub iot_addr_len : ℕ

-- Five uint16_t members, one after the other.
unfoldable pub put_words : Memory → (a v0 v1 v2 v3 v4 : ℕ) → Memory
put_words m a v0 v1 v2 v3 v4 =
    let m = write_le m a v0 2 in
    let m = write_le m (a + 2) v1 2 in
    let m = write_le m (a + 4) v2 2 in let m = write_le m (a + 6) v3 2 in write_le m (a + 8) v4 2

-- The builders write at `result_msg` in `m`. An invalid length is the largest size_t, which the second
-- comparison, with a uint16_t, refuses.
unfoldable pub build_proxy_dev_message :
    DevMsgHeader → (payload : Memory) → (payload_len : ℕ) → Memory → (result_msg : ℕ) → Ret × Memory
unfolding put_words
build_proxy_dev_message dev_hdr payload payload_len m result_msg =
    if not (has_length (dev_msg_payload_len dev_hdr.msg_type dev_hdr.action_type) payload_len)
    then (process_error, m)
    else (if not (payload_len == dev_hdr.payload_len) then (process_error, m) else (
      process_ok,
      hyperamp_safe_memcpy
          (put_words m result_msg dev_hdr.version dev_hdr.msg_type dev_hdr.msg_id
            dev_hdr.action_type payload_len)
          (result_msg + 10) payload 0 payload_len,
    ))

-- STRGY_MSG_HEADER_PAYLOAD_LEN is DEV_MSG_PAYLOAD_LEN of the header.
unfoldable pub build_proxy_strgy_message :
    DevMsgHeader → (payload : Memory) → (payload_len : ℕ) → Memory → (result_msg : ℕ) → Ret × Memory
unfolding put_words
build_proxy_strgy_message strgy_hdr payload payload_len m result_msg =
    if not (has_length (dev_msg_payload_len strgy_hdr.msg_type strgy_hdr.action_type) payload_len)
    then (process_error, m)
    else (if not (payload_len == strgy_hdr.payload_len) then (process_error, m) else (
      process_ok,
      hyperamp_safe_memcpy
          (put_words m result_msg strgy_hdr.version strgy_hdr.msg_type strgy_hdr.msg_id
            strgy_hdr.action_type payload_len)
          (result_msg + 10) payload 0 payload_len,
    ))

unfoldable pub build_proxy_sess_message :
    SessMsgHeader
    → (payload : Memory) → (payload_len : ℕ) → Memory
    → (result_msg : ℕ) → Ret × Memory
unfolding put_words
build_proxy_sess_message sess_hdr payload payload_len m result_msg =
    if not (
      has_length (sess_msg_payload_len sess_hdr.msg_type sess_hdr.action_type sess_hdr.ip_version)
        payload_len)
    then (process_error, m)
    else (if not (payload_len == sess_hdr.payload_len) then (process_error, m) else (
      process_ok,
      hyperamp_safe_memcpy
          (put_words m result_msg sess_hdr.version sess_hdr.msg_type sess_hdr.action_type
            sess_hdr.ip_version sess_hdr.payload_len)
          (result_msg + 10) payload 0 payload_len,
    ))

unfoldable pub build_proxy_data_message :
    (payload : Memory) → (payload_len : ℕ) → Memory → (result_msg : ℕ) → Ret × Memory
build_proxy_data_message payload payload_len m result_msg =
    (process_ok, hyperamp_safe_memcpy m result_msg payload 0 payload_len)

-- The sizes of IotBtAddr, IotZigbeeAddr, IotCanAddr, IotLoraAddr, IotPowerLinkAddr and IotModbusTcpAddr, packed;
-- `none` for the other protocols.
unfoldable pub iot_addr_size : (proto_type : ℕ) → Option ℕ
iot_addr_size proto_type =
    if proto_type == 1
    then some 20
    else (if proto_type == 2
        then some 11
        else (if proto_type == 3
            then some 7
            else (if proto_type == 4
                then some 11
                else (if proto_type == 5
                    then some 10
                    else (if proto_type == 6 then some 11 else none)))))

-- `addr_info_len` after it is refined by `iot_addr_len`.
unfoldable pub refined : (iot_addr_len addr_info_len : ℕ) → ℕ
refined iot_addr_len addr_info_len =
    if ltb 0 iot_addr_len && ltb iot_addr_len addr_info_len then iot_addr_len else addr_info_len

-- The stores to the IoT header before the address.
unfoldable pub put_iot_header : Memory → (a proto_type : ℕ) → Memory
put_iot_header m a proto_type =
    let m = write_le m (a + 6) 0 2 in
    let m = write_le m (a + 4) 0 2 in
    let m = write_le m (a + 2) proto_type 2 in let m = write_le m a 0 2 in write_le m (a + 10) 0 2

-- From the address on, once its length is known.
unfoldable pub put_iot_body :
    (addr_info : Memory)
    → (payload : Memory) → (payload_len : ℕ) → Memory
    → (result_msg addr_info_len : ℕ) → Memory
put_iot_body addr_info payload payload_len m result_msg addr_info_len =
    let m = hyperamp_safe_memcpy m (result_msg + 12) addr_info 0 addr_info_len in
    let m = hyperamp_safe_memcpy m (result_msg + 12 + addr_info_len) payload 0 payload_len in
    write_le m (result_msg + 8) (payload_len + addr_info_len) 2

-- The union has 20 bytes.
unfoldable pub build_proxy_iot_message :
    GeneralProxyMsgHeader
    → (payload : Memory) → (payload_len : ℕ) → Memory
    → (result_msg : ℕ) → Ret × Memory
unfolding put_iot_header put_iot_body refined
build_proxy_iot_message header payload payload_len m result_msg =
    let proto_type = (iot_header_at header.inner_header).proto_type in
    let m = put_iot_header m result_msg proto_type in
    elim (iot_addr_size proto_type) [
      | none ↦ (process_error, m)
      | some addr_info_len ↦ if ltb 20 addr_info_len then (process_error, m) else (
        process_ok,
        put_iot_body header.addr_info payload payload_len m result_msg
            (refined header.iot_addr_len addr_info_len),
      )
    ]

-- The `switch` on the type: the code, `proxy_msg_payload_len` and the buffer. `none`: the function returns an
-- error at once, for an IoT protocol or a type that it does not know.
unfoldable pub inner_built :
    GeneralProxyMsgHeader
    → (payload : Memory) → (payload_len : ℕ) → Memory
    → (msg_buf : ℕ) → Option (Ret × ℕ × Memory)
inner_built header payload payload_len m msg_buf =
    let dev =
      build_proxy_dev_message (dev_header_at header.inner_header) payload payload_len m msg_buf in
    let strgy =
      build_proxy_strgy_message (dev_header_at header.inner_header) payload payload_len m msg_buf in
    let sess =
      build_proxy_sess_message (sess_header_at header.inner_header) payload payload_len m msg_buf in
    let dat = build_proxy_data_message payload payload_len m msg_buf in
    let iot = build_proxy_iot_message header payload payload_len m msg_buf in
    let outer_msg_type = header.outer_header.proxy_msg_type in
    if outer_msg_type == 0
    then some (dev.0, 10, dev.1)
    else (if outer_msg_type == 1
        then some (strgy.0, 10, strgy.1)
        else (if outer_msg_type == 2
            then some (sess.0, 10, sess.1)
            else (if outer_msg_type == 3
                then some (dat.0, 0, dat.1)
                else (if outer_msg_type == 4
                    then elim (iot_addr_size (iot_header_at header.inner_header).proto_type) [
                      | none ↦ none
                      | some sub_iot_hdr_len ↦ some (iot.0, 12 + sub_iot_hdr_len, iot.1)
                    ]
                    else none))))

-- The stores to the outer header before the message is built.
unfoldable pub put_outer : Memory → ProxyMsgHeader → Memory
put_outer m hdr =
    let m = store m 0 hdr.version in
    let m = store m 1 hdr.proxy_msg_type in
    let m = write_le m 2 hdr.frontend_sess_id 2 in write_le m 4 hdr.backend_sess_id 2

-- The buffer after the message is built into it, and the number of its bytes.
unfoldable pub general_built :
    GeneralProxyMsgHeader
    → (payload : Memory) → (payload_len : ℕ) → (global_amp_tx_buf : Memory) → Option (Memory × ℕ)
unfolding inner_built put_outer
general_built header payload payload_len global_amp_tx_buf =
    let m = hyperamp_safe_memset global_amp_tx_buf 0 0 4096 in
    elim (inner_built header payload payload_len (put_outer m header.outer_header) 8) [
      | none ↦ none
      | some (process_ok, proxy_msg_payload_len, m) ↦ some (
        write_le m 6 (payload_len + proxy_msg_payload_len) 2,
        payload_len + proxy_msg_payload_len + 8,
      )
      | some (_, _, _) ↦ none
    ]

-- What the functions use of the engine: that it has its memory pool and its sending queue, and where the queue's data is.
pub record EngineTx : Type 0 where
  pub mem_pool : Bool
  pub hyper_tx_queue : Bool
  pub data_region : ℕ

-- `none`: the caller spins on the queue's lock.
unfoldable pub build_proxy_general_message :
    Option EngineTx
    → Shm
    → GeneralProxyMsgHeader
    → Option Memory
    → (payload_len : ℕ) → (global_amp_tx_buf : Memory) → Option (Ret × Shm)
unfolding general_built
build_proxy_general_message engine s header none payload_len global_amp_tx_buf =
    some (process_error, s)
build_proxy_general_message none s header (some payload) payload_len global_amp_tx_buf =
    some (process_error, s)
build_proxy_general_message (some engine) s header (some payload) payload_len global_amp_tx_buf =
    if not engine.mem_pool || not engine.hyper_tx_queue
    then some (process_error, s)
    else elim (general_built header payload payload_len global_amp_tx_buf) [
      | none ↦ some (process_error, s)
      | some (msg, len) ↦ (do
        (ret, s') ← hyperamp_queue_enqueue s 0 (some msg) len engine.data_region
        some (to_ret ret, s'))
    ]
