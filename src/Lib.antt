-- ===== src/Lib.antt =====
-- HighSpeedCProxy's backend proxy: a Linux process that passes messages between frontends in other
-- zones of the machine and network devices. This library models the part in which messages and
-- sessions live: the shared-memory queues that two zones use, the pool of sessions, and the
-- transfer between them.
--
-- Modules and the code they model:
--
-- - Memory (src/hyperamp_shm_queue.c): byte-addressed memory and the byte loops
--   hyperamp_safe_memset, hyperamp_safe_memcpy and hyperamp_safe_read_u16/u32/u64. Memory/Copy and
--   Memory/Words say what the loops leave at each address.
-- - Spinlock (src/hyperamp_shm_queue.c, include/hyperamp_shm_queue.h): the lock as one caller sees
--   it. Spinlock/Exclusive and Spinlock/Plain are the interleavings of any number of zones, a step
--   for each access of the ARM64 path and of the path of every other processor;
--   Spinlock/Exclusive/Progress is about runs that let a zone in.
-- - Shm (the same files): HyperampShmQueue as a record with the data region as memory, and
--   hyperamp_queue_enqueue, _dequeue, _peek, _alloc_slot and _release_slot. Shm/Bounds has the
--   invariant IsValid, Shm/Slots the messages in the slots, Shm/Fifo the abstraction Rep, a list
--   of messages oldest first, which each operation is proved against there and in Shm/Take and
--   Shm/ZeroCopy; Shm/Reread is the queue while its data region is written to.
-- - Shm/Layout: the control block as bytes with hyperamp_queue_init and
--   hyperamp_queue_is_initialized; Shm/Linux: map_physical_memory, unmap_physical_memory and
--   hyperamp_linux_init; Shm/Shared: two queues on one data region.
-- - Selector (src/engine.c): choose_dev_round_robin, choose_dev_latency_first,
--   choose_dev_throughput_first and choose_hs_net_dev.
-- - Pool (src/session_pool.c, include/session.h, include/dev.h): the session pool's state; the
--   queue of ids, the link and node macros; Pool/Links is the invariant IsLinked of the queues of
--   active sessions; Pool/Create has high_speed_create_sess_active stage by stage, Pool/Table
--   high_speed_delete_sess, Pool/Lifetime the initialisation and the destruction of the pool.
-- - Transfer (src/session_pool.c, src/engine.c): backend_engine_hyperamp_tx_queue_put and
--   _rx_queue_get, high_speed_data_process_f2b and _b2f; Transfer/Receive is
--   high_speed_data_process_nns. Transfer/Drain composes the pool's transfer with the queue,
--   Transfer/Frames says which messages come from a socket's bytes.
-- - Message (src/backend_proto.c, include/backend_proto.h, include/message.h): ProxyMsgHeader as
--   bytes, the checks on a message, and backend_proxy_msg_process, with the handlers of each type
--   as an argument.
-- - Handler (src/backend_proto.c, src/session.c): sess_msg_seg_alloc and
--   backend_proxy_data_msg_process; Handler/Forward takes a whole message through the dispatch.
--   Handler/Session is backend_proxy_sess_msg_process with the handlers below it, which create,
--   confirm and close sessions of the pool.
-- - Engine (src/engine.c): the first step of engine_run_hyperamp, which takes messages from the
--   queue and has them processed, with what the processing writes to the data region of both
--   queues; Engine/Quiet is the case that it writes nothing. The loop's number of rounds is
--   bounded by an argument, which need only exceed the messages that are there. Engine/Forward
--   follows a data message from the queue's bytes to its session. Engine/Passes has the second and
--   the fourth step, the passes over the sessions with messages for their sockets and for the
--   frontend (Engine/Passes/Pending is the latter at one session); Engine/Keeps and Engine/Reach
--   say what every operation does to the queues of active sessions, as a step relation on pools,
--   and Engine/Lifetime (src/session_pool.c) has a pool from high_speed_init_pool to
--   high_speed_deinit_pool.
-- - Control (src/backend_proto.c, include/message.h): backend_proxy_dev_msg_process and
--   backend_proxy_strgy_msg_process with the handlers below them.
-- - Build (src/backend_proto.c, include/message.h): the builders of each type of message and
--   build_proxy_general_message, which builds in global_amp_tx_buf and puts the message into the
--   queue; Build/Response has the responses to session messages, Build/Commands compares built
--   commands with the handlers of Control.
-- - Iot (src/backend_proto.c, src/engine.c, src/session.c): backend_proxy_iot_msg_process and the
--   handlers of the protocols, which hand the message to a session; Iot/Built and Iot/Wire have a
--   message byte by byte, Iot/Arrives follows it from its construction to the session. Iot/Devices
--   (src/engine.c) is engine_iot_dev_run, which queues what the devices send: Iot/Devices/Queued
--   is the queue under sends whose results are not used. Iot/Modbus (src/session.c) is the Modbus
--   TCP session, whose answers are those that Iot/Devices takes.
-- - Passive (src/session_pool.c, src/engine.c): high_speed_create_sess_passive and
--   engine_listener_run; Passive/Request has the message to the frontend byte by byte.
-- - ShmPool (include/shared_mem_io.h, src/shared_mem_io.c): the older queue, its macros on the
--   indices and its functions; ShmPool/Order says in which order slots are received.
-- - Base: the shared names, Boolean tests, lists, options, and the ruleset for tests.
--
-- How the code is represented: fields of w bits are numbers, with % 2 ^ w where the code can wrap.
-- A call that would spin for ever on a lock that nobody gives back is `none`. Pointers that the
-- code compares with NULL are options; sessions and nodes are addresses, and the heap says which
-- are live. Loops are recursion on the list or on the number of rounds that the code counts; only
-- the engine's receiving loop, which the queue ends, has its rounds as an argument. System calls
-- (malloc, open, mmap, sockets, epoll_ctl, send, getsockopt) and the message layer's success are
-- arguments.
--
-- Not modelled: the modes of build_proxy_general_message that no caller uses, the engine's poller,
-- the Bluetooth and CAN sessions of src/session.c, sockets and poller beyond their results,
-- configuration, printing and statistics, and the copies of other projects (INI parser, hash
-- table).
pub mod Base
pub mod Memory
pub mod Spinlock
pub mod Shm
pub mod Selector
pub mod Message
pub mod Pool
pub mod Transfer
pub mod Handler
pub mod Control
pub mod ShmPool
pub mod Build
pub mod Iot
pub mod Passive
pub mod Engine
