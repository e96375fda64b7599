-- ===== src/Wire/Receiving/Arrival.antt =====
-- How the body of a packet arrives in pieces (src/session.cpp, onPacketHeadRecv and
-- onPacketBodyRecv).
use zway_server.Base.{ℕ, ◌+◌, ◌-◌, ◌^◌, ◌<◌, ◌≡◌, true, List, [], ◌∷◌, ◌∙◌, ap, arith, ==_self}
use zway_server.Wire.Receiving.{
  no_error, Packet, head, body, Reader, on_packet_recv, recv_packet_body, on_packet_head_recv,
  on_packet_body_recv, complete,
}

-- A body comes in pieces of the given sizes, without an error.
unfoldable pub feed : ℕ → Packet → List ℕ → Reader → Reader
unfolding complete
feed head_size read [] r = r
feed head_size read (n ∷ ns) r =
    feed head_size read ns (complete head_size no_error n read r r.pending)

abbrev pub sum : List ℕ → ℕ
sum [] = 0
sum (n ∷ ns) = n + sum ns

abbrev pub AllPositive : List ℕ → Type 0
AllPositive [] = Unit {0}
AllPositive (n ∷ ns) = (0 < n) × AllPositive ns

-- The reader that waits for the rest of a body, from the offset on.
abbrev waiting : Packet → ℕ → Reader → Reader
waiting pkt offset r = record r { pending = body offset (pkt.body_size - offset) pkt }

piece :
    (head_size offset n : ℕ) (pkt read : Packet) (r : Reader)
    → offset + n < pkt.body_size
    → pkt.body_size < 2 ^ 32
    → complete head_size no_error n read (waiting pkt offset r) (waiting pkt offset r).pending
      ≡ waiting pkt (offset + n) r
unfolding complete on_packet_body_recv
piece head_size offset n pkt read r more small = ground arith

feed_from :
    (head_size offset n : ℕ) (pkt read : Packet) (ns : List ℕ) (r : Reader)
    → offset + (n + sum ns) ≡ pkt.body_size
    → pkt.body_size < 2 ^ 32
    → AllPositive ns
    → feed head_size read (n ∷ ns) (waiting pkt offset r) ≡ on_packet_recv pkt r
unfolding feed complete on_packet_body_recv on_packet_recv
feed_from head_size offset n pkt read [] r total small pos = ground arith
feed_from head_size offset n pkt read (m ∷ ns) r total small pos =
    ap (feed head_size read (m ∷ ns)) (piece head_size offset n pkt read r (omega arith) small)
    ∙ feed_from head_size (offset + n) m pkt read ns r (omega arith) small pos.1

body_arrives :
    (head_size n : ℕ) (pkt : Packet) (ns : List ℕ) (r : Reader)
    → n + sum ns ≡ pkt.body_size
    → pkt.body_size < 2 ^ 32
    → AllPositive ns
    → feed head_size pkt (n ∷ ns) (recv_packet_body true pkt r) ≡ on_packet_recv pkt r
unfolding recv_packet_body on_packet_recv feed
body_arrives head_size n pkt ns r total small pos =
    feed_from head_size 0 n pkt pkt ns r (omega arith) small pos

head_arrives :
    (head_size : ℕ) (pkt : Packet) (r : Reader)
    → 0 < pkt.body_size
    → on_packet_head_recv head_size no_error head_size true pkt r ≡ recv_packet_body true pkt r
unfolding on_packet_head_recv
head_arrives head_size pkt r pos = ground (arith, ==_self head_size)

-- A packet whose body has some bytes, but less than 2^32, and whose buffer can be created, arrives
-- whole: when a head is awaited and comes in one piece, and the body follows without an error in
-- whatever non-empty pieces the socket delivers it, then after the last piece the packet has been
-- handled, once, and nothing else.
pub packet_arrives :
    (head_size n : ℕ) (pkt : Packet) (ns : List ℕ) (r : Reader)
    → r.pending ≡ head
    → n + sum ns ≡ pkt.body_size
    → pkt.body_size < 2 ^ 32
    → AllPositive (n ∷ ns)
    → feed head_size pkt (head_size ∷ n ∷ ns) r ≡ on_packet_recv pkt r
unfolding complete feed
packet_arrives head_size n pkt ns r e total small pos =
    let start = ap (complete head_size no_error head_size pkt r) e in
    ap (feed head_size pkt (n ∷ ns)) (start ∙ head_arrives head_size pkt r (omega arith))
    ∙ body_arrives head_size n pkt ns r total small pos.1
