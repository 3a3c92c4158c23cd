-- ===== src/GateServer.antt =====
-- gate_server/client_connection.* and gate_server/gate_application.*: the connections of clients,
-- the pool they come from, and the two indices over them. A connection stands for its address,
-- which is a number. The game's messages, the logger and the options are left out.
pub mod Client
pub mod Gate
pub mod Pool
pub mod Runs
