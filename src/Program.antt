-- ===== src/Program.antt =====
-- The program (src/main.cpp): the pool of worker threads and the console that runs the server.
-- A thread of the program is one of the pool of connections; the server is Server/Lifecycle.
pub mod Workers
pub mod Console
pub mod Launch
pub mod Examples
