-- ===== src/Session/Frames.antt =====
-- Session::read_header and Session::read_payload of src/session.cpp, over the bytes that a client sends until its connection ends.
use tinymq_broker.Base.{
  ℕ, zero, suc, Bytes, Option, none, some, List, [], ◌∷◌, ltb, nat_beq, length, take, drop,
  if◌then◌else◌,
}
use tinymq_broker.Packet.Types.{of_code}
use tinymq_broker.Packet.{Packet, make_packet, word16}

-- The next packet and what follows it; `none` is a read error, in the header or in the payload.
unfoldable pub read_packet : Bytes → Option (Packet × Bytes)
read_packet (t ∷ f ∷ hi ∷ lo ∷ rest) =
    if nat_beq (word16 hi lo) 0
    then some (make_packet (of_code t) f [], rest)
    else if ltb (length rest) (word16 hi lo)
    then none
    else some (make_packet (of_code t) f (take (word16 hi lo) rest), drop (word16 hi lo) rest)
read_packet _ = none

-- The packets of a stream, and the bytes at which reading stops.
unfoldable pub read_packets : ℕ → Bytes → List Packet × Bytes
unfolding read_packet
read_packets zero stream = ([], stream)
read_packets (suc fuel) stream = elim (read_packet stream) [
  | none ↦ ([], stream)
  | some (p, rest) ↦ (p ∷ (read_packets fuel rest).0, (read_packets fuel rest).1)
]
