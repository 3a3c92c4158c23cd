-- ===== src/TcpDataHandler.antt =====
-- framework/tcp_data_handler.h and framework/tcp_data_handler.cpp: a connection that cuts the bytes
-- it receives into packets, and sends bytes at once or by way of its send buffer.
-- `Recv` is the reading half, which touches only m_rbuf, and `Send` the writing half.
pub mod Recv
pub mod Frames
pub mod Segments
pub mod Reads
pub mod Send
pub mod Sound
pub mod Stream
pub mod Packets
pub mod Actions
pub mod Lifecycle
use frame_work.Prelude.{ℤ, pos}

-- framework/io_handler.h: the types of an error event.
abbrev pub error_type_system : ℤ
error_type_system = pos 1

abbrev pub error_type_memory : ℤ
error_type_memory = pos 2

abbrev pub error_type_request : ℤ
error_type_request = pos 3

abbrev pub error_type_peer_close : ℤ
error_type_peer_close = pos 5
