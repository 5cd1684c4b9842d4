-- ===== src/Engine/Examples.antt =====
-- Runs of the engine's first step.
use high_speed_cproxy.Base.{◌==◌}
use high_speed_cproxy.Base.{if◌then◌else◌, length}
use high_speed_cproxy.Engine.Samples.{threes, queue4, messages, queue4-Rep}
use high_speed_cproxy.Memory.{write_le}
use high_speed_cproxy.Memory.Copy.{Holds, bytes}
use high_speed_cproxy.Message.{ProxyMsgHeader, put_header, Handlers, backend_proxy_msg_process}
use high_speed_cproxy.Selector.{process_error}
use high_speed_cproxy.Pool.{BackendSessionPool, search_in}
use high_speed_cproxy.Pool.Table.{high_speed_search_sess}
use high_speed_cproxy.Handler.Data.{segment_of, with_segment}
use high_speed_cproxy.Handler.Forward.{with_data}
use high_speed_cproxy.Handler.Samples.{session, one_session}
use high_speed_cproxy.Engine.Forward.{message_bytes, data_arrives}
use high_speed_cproxy.Base.{ℕ, ◌+◌, ◌-◌, ◌≡◌, refl, Option, some, [], ◌∷◌, arith}
use high_speed_cproxy.Memory.{Memory}
use high_speed_cproxy.Shm.{Shm}
use high_speed_cproxy.Shm.Fifo.{Rep}
use high_speed_cproxy.Selector.{Ret, process_ok, process_again}
use high_speed_cproxy.Engine.{step1}
use high_speed_cproxy.Engine.Quiet.{writing_nothing}
use high_speed_cproxy.Engine.Receive.{Processed, InOrder, IsQuiet, receive_all}

-- Counts the messages, and answers each one with a byte in the block of the slot that is read next.
abbrev counting : ℕ → (msg_buf region : Memory) → Option (Ret × ℕ × Memory)
counting n buf region = some (process_ok, n + 1, λ j. if j == 116 then 5 else region j)

receive_all_example :
    (s' : Shm) × (len : Option ℕ) × (n : ℕ) × (step1 counting 3 queue4 100 threes (some 0) 0
      ≡ some (record { ret = process_again; shm = s'; block_size = len; state = n }))
    × Rep 100 s' []
    × Processed counting 100 queue4.block_size queue4.capacity
        (length messages)
        queue4.tail
        0
        queue4.region
        n
        s'.region
    × (IsQuiet counting → InOrder counting queue4.region messages 0 n)
receive_all_example =
    receive_all counting 100 3 queue4 messages threes 0 0 queue4-Rep (omega arith)
      (λ n buf region. (_, refl))

-- Handlers that refuse every message.
abbrev refusing : Handlers BackendSessionPool
refusing = record {
  dev_msg_process = λ p msg. some (process_error, p);
  strgy_msg_process = λ p msg. some (process_error, p);
  sess_msg_process = λ p f b msg. some (process_error, p);
  data_msg_process = λ p f b n msg. some (process_error, p);
  iot_msg_process = λ p f b n msg. some (process_error, p);
}

abbrev header : ProxyMsgHeader
header = record {
  version = 1;
  proxy_msg_type = 3;
  frontend_sess_id = 700;
  backend_sess_id = 5;
  payload_len = 2;
}

-- A queue with blocks of 16 bytes that holds the message at 116.
abbrev data_queue : Shm
data_queue = record {
  queue = record queue4.queue { block_size = 16; header = 1 };
  region = λ j. put_header threes header (j - 116);
}

data_queue-Rep : Rep 100 data_queue (message_bytes header threes ∷ [])
unfolding put_header write_le
data_queue-Rep = record {
  valid = record {
    capacity_pos = omega arith;
    capacity_u16 = omega arith;
    header_in = omega arith;
    tail_in = omega arith;
    fits = omega arith;
    unlocked = refl;
  };
  room = omega arith;
  place = refl;
  slots = (
    omega arith,
    (refl, (refl, (refl, (refl, (refl, (refl, (refl, (refl, (refl, (refl, tt)))))))))),
    tt,
  );
}

found : high_speed_search_sess one_session 5 ≡ some 500
unfolding high_speed_search_sess search_in
found = refl

data_arrives_example :
    (s' : Shm) × (buf : Memory) × (len : Option ℕ) × Rep 100 s' []
    × Holds buf 0 (bytes threes 8 2)
    × (step1
          (writing_nothing (backend_proxy_msg_process (with_data refusing threes)))
          2
          data_queue
          100
          threes
          (some 0)
          one_session
        ≡ some (record {
          ret = process_again;
          shm = s';
          block_size = len;
          state = with_segment one_session 500 (session 0) (segment_of 2 buf);
        }))
data_arrives_example =
    data_arrives refusing one_session threes header threes 500 (session 0) 100 data_queue threes 0
      data_queue-Rep
      (record { frontend_u16 = omega arith; backend_u16 = omega arith; payload_u16 = omega arith })
      refl (omega arith) refl found refl
