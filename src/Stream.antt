-- ===== src/Stream.antt =====
-- The stream buffers of the server: include/streambuffer.h and src/streambuffer.cpp.
pub mod FileBuffer
pub mod StreamBuffer
pub mod Contents
pub mod Opening
pub mod Examples
