-- ===== src/Wire.antt =====
-- The packet traffic of a session: ClientSession::postPacket, sendPacket and onPacketSent, and the
-- reading side, recvPacket, onPacketHeadRecv, recvPacketBody, onPacketBodyRecv and onPacketRecv
-- (src/session.cpp).
pub mod Sending
pub mod Receiving
pub mod Racing
pub mod Examples
