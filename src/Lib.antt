-- ===== src/Lib.antt =====
-- A verification library for the kingnet server framework (framework/, public/, gate_server/).
--
-- The framework runs connections and timers from one loop. epoll_reactor calls a handler when its
-- descriptor is ready; tcp_data_handler is such a handler, which reads into one buffer, cuts packets
-- off it and hands them to the class that derives from it, and sends from another buffer;
-- timer_manager is run by the same loop with the time of the day, and calls timers as they fall due.
-- circular_queue hands elements from one part of a program to another.
--
-- Files and code:
--   Prelude           names, tests and lemmas that the other files share
--   Buffer            framework/buffer.h, framework/buffer.cpp (class buffer)
--   CircularQueue     framework/circular_queue.h (class circular_queue)
--   TcpDataHandler    framework/tcp_data_handler.h, framework/tcp_data_handler.cpp
--     Recv            on_read and its packet loop
--     Frames, Segments, Reads   the loop on plain bytes, and on_read against it
--     Lifecycle       init and fini
--     Send            on_write and both forms of send
--     Sound, Stream, Packets, Actions   the bytes they accept, one call or many
--   TimerManager      framework/timer_manager.h, framework/timer_manager.cpp
--     Start, Inv, Fire   init, where timers stand, the calls of on_timeout
--     Skip, Run, Until   the jump, the rounds, and the whole of run_until
--   LruMap            public/lru_map_container.h (class LRUMapContainer)
--     Ring, Order, Uses   the linked nodes, the order of the keys, sequences of calls
--   RingMemBuffer     public/ring_mem_buffer.h, public/ring_mem_buffer.cpp
--     Pending         the bytes that are pushed and not consumed
--   FsmManager        framework/fsm_manager.h, framework/fsm_manager.cpp
--     Lives           which objects are found
--   UdpDataHandler    framework/udp_data_handler.h, framework/udp_data_handler.cpp
--     Lifecycle       init and fini
--     Recv, Sending   on_read; on_write and send
--   Threshold         public/threshold.h
--   EpollReactor      framework/epoll_reactor.h, framework/epoll_reactor.cpp
--     Table, Runs     the handlers and the watched descriptors, sequences of calls
--     Round, Dispatch run_once; the callbacks that a round makes
--   StrUtil           public/str_util.h, public/str_util.cpp
--     Split, Trim     str_split_by, join and str_split; str_trim and its kin
--     Table, Base64   the tables of CBase64; Encode, Decode, base64_str_to_normal
--     Codec, Pieces, Rejoin   what is decoded; what is split and joined
--   UnixConfig        framework/unix_config.h, framework/unix_config.cpp
--     Lines, Printed  parse_line, load and dump; lines that are read back
--     Chain, Refine, Uses, Runs   one chain, the configuration as a function, its calls
--   TcpConnection     framework/tcp_connection.h, framework/tcp_connection.cpp
--     Recv, Sending   on_read; what send puts behind the bytes accepted before
--     Lifecycle, Lives   init and fini; sequences of them
--   TimeUtil          framework/time_util.h
--     Days, Weeks     days and weeks of a zone that is a fixed number of seconds ahead
--   GateServer        gate_server/client_connection.*, gate_server/gate_application.*
--     Client, Gate    one connection; the pool and the indices
--     Pool, Runs      where a connection is; sequences of events
--   AverageCounter    public/average_counter.h
--   DayRollLogger     framework/day_roll_logger.*
--     Lines, Ready    what the files and the buffer have; the logger that init makes
--   TcpAcceptor       framework/tcp_acceptor.*
--     Loop, Uses      one call of on_read; sequences of calls
--   NamevalueSaver    public/namevalue_saver.*
--     Crash           what a load finds after a save that ended anywhere
--   Tests             concrete inputs
--
-- State and operations. A method is a function from the state of its object, a record with the
-- object's fields, to the value it returns and the new state. A method keeps its name; send(packet *)
-- is send_packet, and a constructor is fresh, constructed or null_buffer. Pointers into a buffer are
-- offsets from its block, which stay as they are when the block moves, and a circular list with its
-- sentinel is a list. Status codes are integers.
--
-- Calls to code that is not here are parameters: malloc and realloc (Buffer.Alloc, with what the C
-- standard says of them), recv and send (functions of the size they are given), the callbacks of
-- the deriving classes, on_event and on_connection with what they do to the handler and the reactor,
-- and epoll_ctl, of which, outside EpollReactor, only success or failure is modelled.
--
-- Loops and fuel. The packet loop of on_read runs on fuel: each round takes at least one byte, and on
-- any fuel above the number of bytes it gives the same, so the model gives it one more than that
-- number. The loop over recv runs over the list of its answers, and stops at the end of the list as at
-- EAGAIN. The inner loop of run_until runs on the number of timers in the slot at its start, which is
-- enough because the requests of a callback put no timer in that slot. The outer loop makes as many
-- rounds as the clock is behind now.
--
-- Integers. An int cut out of a 64-bit counter keeps 32 bits, and m_step_slot_size 16 bits; the
-- counter of a Threshold, its cycles and the memsize of the reactor keep 32 bits. Sizes of memory that
-- exists do not overflow and are natural numbers.
--
-- Not modelled. framework/thread, framework/network_util, framework/system_util and
-- public/encode_converter only call the system; public/md5 and third_party/ are copies of other
-- projects' code, and public/*.pb.* are generated. The other files of
-- framework/, public/ and gate_server/ have no model.
pub mod AverageCounter
pub mod Buffer
pub mod CircularQueue
pub mod DayRollLogger
pub mod EpollReactor
pub mod FsmManager
pub mod GateServer
pub mod LruMap
pub mod NamevalueSaver
pub mod Prelude
pub mod RingMemBuffer
pub mod StrUtil
pub mod TcpAcceptor
pub mod TcpConnection
pub mod TcpDataHandler
pub mod Tests
pub mod Threshold
pub mod TimeUtil
pub mod TimerManager
pub mod UdpDataHandler
pub mod UnixConfig
