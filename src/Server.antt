-- ===== src/Server.antt =====
-- class Server (include/server.h, src/server.cpp), by the parts of its state.
pub mod Sessions
pub mod Buffers
pub mod Lifecycle
pub mod Uptime
pub mod Info
pub mod Examples
