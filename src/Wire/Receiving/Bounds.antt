-- ===== src/Wire/Receiving/Bounds.antt =====
-- Where the reads of a body lie, and a head that comes in part (src/session.cpp).
use zway_server.Base.{ℕ, ◌+◌, ◌^◌, ◌<◌, ◌≡◌, true, ◌&&◌, arith, ltb, ltb→lt, ◌==◌, if_cases}
use zway_server.Wire.Receiving.{
  ErrorCode, no_error, gone, aborted, other, Packet, Pending, none, head, body, Reader,
  on_packet_head_recv, on_packet_body_recv, complete, close_or_stop, is_fine,
}

-- A read for a body begins within the body and ends with it.
abbrev pub Fits : Pending → Type 0
Fits none = Unit {0}
Fits head = Unit {0}
Fits (body offset len pkt) = (offset < pkt.body_size) × (offset + len ≡ pkt.body_size)

close_or_stop-Fits : (error : ErrorCode) (r : Reader) → Fits (close_or_stop error r).pending
unfolding close_or_stop
close_or_stop-Fits no_error r = tt
close_or_stop-Fits gone r = tt
close_or_stop-Fits aborted r = tt
close_or_stop-Fits other r = tt

abbrev ReaderFits : Reader → Type 0
ReaderFits r = Fits r.pending

head-Fits :
    (head_size : ℕ) (error : ErrorCode) (bytes : ℕ) (pkt : Packet) (r : Reader)
    → Fits (on_packet_head_recv head_size error bytes true pkt r).pending
unfolding on_packet_head_recv
head-Fits head_size error bytes pkt r =
    if_cases ReaderFits (is_fine error && bytes == head_size)
      (λ _.
        if_cases ReaderFits (ltb 0 pkt.body_size)
          (λ some. (ltb→lt 0 pkt.body_size some, omega arith)) (λ _. tt))
      λ _.
        if_cases ReaderFits (is_fine error && bytes == 0) (λ _. tt) λ _. close_or_stop-Fits error r

body-Fits :
    (error : ErrorCode) (bytes offset : ℕ) (pkt : Packet) (r : Reader)
    → pkt.body_size < 2 ^ 32
    → Fits (on_packet_body_recv error bytes offset pkt r).pending
unfolding on_packet_body_recv
body-Fits error bytes offset pkt r small =
    if_cases ReaderFits (is_fine error && ltb (offset + bytes) pkt.body_size) (λ more. ground arith)
      λ _.
        if_cases ReaderFits (is_fine error && offset + bytes == pkt.body_size) (λ _. tt)
          λ _. close_or_stop-Fits error r

abbrev pub Small : Pending → Type 0
Small none = Unit {0}
Small head = Unit {0}
Small (body offset len pkt) = pkt.body_size < 2 ^ 32

by_pending :
    (head_size : ℕ) (error : ErrorCode) (bytes : ℕ) (read : Packet) (r : Reader) (p : Pending)
    → Small p
    → Fits p
    → Fits r.pending
    → Fits (complete head_size error bytes read r p).pending
unfolding complete
by_pending head_size error bytes read r none small f h = h
by_pending head_size error bytes read r head small f h = head-Fits head_size error bytes read r
by_pending head_size error bytes read r (body offset len pkt) small f h =
    body-Fits error bytes offset pkt r small

-- Whatever completion comes, with any error and any number of bytes, where the buffer for a body
-- can be created: if the pending read lay within its body, of less than 2^32 bytes, then the read
-- that is pending next lies within its body, and asks for at least one byte if it is for a body.
pub complete-Fits :
    (head_size : ℕ) (error : ErrorCode) (bytes : ℕ) (read : Packet) (r : Reader)
    → Small r.pending
    → Fits r.pending
    → Fits (complete head_size error bytes read r r.pending).pending
complete-Fits head_size error bytes read r small h =
    by_pending head_size error bytes read r r.pending small h h

-- A head that arrives in part, without an error, leaves the session open with no read pending.
pub short_head_stalls :
    (head_size bytes : ℕ) (read : Packet) (r : Reader)
    → r.pending ≡ head
    → 0 < bytes
    → bytes < head_size
    → ((complete head_size no_error bytes read r r.pending).pending ≡ none)
      × ((complete head_size no_error bytes read r r.pending).closed ≡ r.closed)
unfolding complete on_packet_head_recv
short_head_stalls head_size bytes read r e pos short = ground arith
