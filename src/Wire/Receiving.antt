-- ===== src/Wire/Receiving.antt =====
-- The reading side of a session: recvPacket, onPacketHeadRecv, recvPacketBody, onPacketBodyRecv and
-- onPacketRecv (src/session.cpp), as a machine that the completions of `async_read_some` drive.
pub mod Arrival
pub mod Bounds
use zway_server.Base.{
  ℕ, ◌+◌, ◌-◌, ◌%◌, ◌^◌, ◌<◌, ◌≡◌, Bool, true, false, not, ◌&&◌, List, [], ◌∷◌, ◌∙◌, ltb, ◌==◌,
  if◌then◌else◌,
}

-- The codes that the handlers tell apart: `gone` are connection_aborted, connection_reset, eof and
-- 0x140000DB; `aborted` is operation_aborted.
pub data ErrorCode : Type 0 where
  no_error : ErrorCode
  gone : ErrorCode
  aborted : ErrorCode
  other : ErrorCode

-- What the head of a packet says of it.
pub record Packet : Type 0 where
  pub stream_id : ℕ
  pub body_size : ℕ

-- The read that the socket has been given: a head, or `len` bytes for a body from `offset` on.
pub data Pending : Type 0 where
  none : Pending
  head : Pending
  body : ℕ → ℕ → Packet → Pending

-- `processed` are the packets that processIncomingPacket was given, newest first.
pub record Reader : Type 0 where
  pub pending : Pending
  pub closed : Bool
  pub num_recv : ℕ
  pub processed : List Packet

-- The packet's own creation is taken to succeed.
unfoldable pub recv_packet : Reader → Reader
recv_packet r = record r { pending = head }

close : Reader → Reader
close r = record r { pending = none; closed = true }

unfoldable pub on_packet_recv : Packet → Reader → Reader
unfolding recv_packet
on_packet_recv pkt r = recv_packet (record r {
  num_recv = (r.num_recv + 1) % 2 ^ 32;
  processed =
      if not (pkt.stream_id == 0) && not (pkt.body_size == 0)
      then pkt ∷ r.processed
      else r.processed;
})

-- `allocated`: whether the buffer for the body could be created.
unfoldable pub recv_packet_body : Bool → Packet → Reader → Reader
recv_packet_body allocated pkt r =
    if allocated
    then record r { pending = body 0 pkt.body_size pkt }
    else record r { pending = none }

close_or_stop : ErrorCode → Reader → Reader
unfolding close
close_or_stop gone r = close r
close_or_stop no_error r = record r { pending = none }
close_or_stop aborted r = record r { pending = none }
close_or_stop other r = record r { pending = none }

is_fine : ErrorCode → Bool
is_fine no_error = true
is_fine gone = false
is_fine aborted = false
is_fine other = false

-- `head_size` is the size of Packet::Head; `pkt` is what was read into the head.
unfoldable pub on_packet_head_recv : ℕ → ErrorCode → ℕ → Bool → Packet → Reader → Reader
unfolding is_fine close_or_stop recv_packet recv_packet_body on_packet_recv
on_packet_head_recv head_size error bytes allocated pkt r =
    if is_fine error && bytes == head_size
    then (if ltb 0 pkt.body_size then recv_packet_body allocated pkt r else on_packet_recv pkt r)
    else if is_fine error && bytes == 0
    then recv_packet r
    else close_or_stop error r

unfoldable pub on_packet_body_recv : ErrorCode → ℕ → ℕ → Packet → Reader → Reader
unfolding is_fine close_or_stop on_packet_recv
on_packet_body_recv error bytes offset pkt r =
    if is_fine error && ltb (offset + bytes) pkt.body_size
    then (let packet_offset = (offset + bytes) % 2 ^ 32 in
        record r { pending = body packet_offset (pkt.body_size - packet_offset) pkt })
    else if is_fine error && offset + bytes == pkt.body_size
    then on_packet_recv pkt r
    else close_or_stop error r

-- The completion of the read that is pending.
unfoldable pub complete : ℕ → ErrorCode → ℕ → Packet → Reader → Pending → Reader
unfolding on_packet_head_recv on_packet_body_recv
complete head_size error bytes read r none = r
complete head_size error bytes read r head = on_packet_head_recv head_size error bytes true read r
complete head_size error bytes read r (body offset len pkt) =
    on_packet_body_recv error bytes offset pkt r
