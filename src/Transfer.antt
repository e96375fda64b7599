-- ===== src/Transfer.antt =====
-- Streams from one client to another: ClientSession::createStreamReceiver (src/session.cpp) takes
-- one in, class StreamBufferSender (src/streambuffersender.cpp) gives it out, and the server's map
-- of buffers (Server/Buffers) stands between them.
pub mod Upload
pub mod Sender
pub mod Handover
pub mod Announced
pub mod Examples
