-- ===== src/Session/Streams.antt =====
-- What src/session.cpp reads is what src/packet.cpp wrote.
use tinymq_broker.Base.{
  ℕ, zero, suc, ◌/◌, ◌%◌, ◌^◌, ◌<◌, ◌≡◌, refl, Bytes, none, some, List, [], ◌∷◌, ◌++◌, length,
  arith, All, length-append, take-append_length, drop-append_length,
}
use mathlib.Core.List.{append_assoc}
use tinymq_broker.Packet.Types.{code, of_code, of_code-code}
use tinymq_broker.Packet.{Packet, make_packet, word16, serialize}
use tinymq_broker.Packet.RoundTrip.{IsWellFormed, header_length}
use tinymq_broker.Session.Frames.{read_packet, read_packets}

-- A packet whose payload fits the length field.
pub record IsSendable (p : Packet) : Type 0 where
  pub well_formed : IsWellFormed p
  pub fits : length p.payload < 2 ^ 16

-- A packet read off the front of a stream, for any four header bytes.
read_header :
    (t f hi lo : ℕ) (body rest : Bytes)
    → word16 hi lo ≡ length body
    → read_packet (t ∷ f ∷ hi ∷ lo ∷ body ++ rest) ≡ some (make_packet (of_code t) f body, rest)
unfolding read_packet make_packet
read_header t f hi lo [] rest e = rw e refl
read_header t f hi lo (b ∷ body) rest e = rw e (
    ground
      (arith, length-append body rest, take-append_length body rest, drop-append_length body rest))

-- The session reads a serialized packet back, and leaves what follows it.
pub read_packet-serialize :
    (p : Packet) (rest : Bytes) → IsSendable p → read_packet (serialize p ++ rest) ≡ some (p, rest)
unfolding serialize make_packet
read_packet-serialize p rest w = ground (
  arith,
  w.well_formed.length_field,
  of_code-code p.packet_type w.well_formed.named,
  read_header (code p.packet_type % 2 ^ 8) p.flags (p.payload_length / 2 ^ 8 % 2 ^ 8)
      (p.payload_length % 2 ^ 8) p.payload rest (header_length p w.well_formed w.fits),
)

abbrev pub stream_of : List Packet → Bytes
stream_of [] = []
stream_of (p ∷ ps) = serialize p ++ stream_of ps

-- A sequence of packets, written one after the other, is read back in order, and reading stops at
-- the bytes behind them if they hold no whole packet; one unit of fuel for each packet, and one more,
-- are enough.
pub read_packets-stream_of :
    (ps : List Packet) (rest : Bytes) (fuel : ℕ)
    → All IsSendable ps
    → read_packet rest ≡ none
    → length ps < fuel
    → read_packets fuel (stream_of ps ++ rest) ≡ (ps, rest)
unfolding read_packets
read_packets-stream_of ps rest zero w e h = absurd (omega arith)
read_packets-stream_of [] rest (suc fuel) w e h = rw (e, read_packets)
read_packets-stream_of (p ∷ ps) rest (suc fuel) w e h =
    rw (append_assoc, read_packet-serialize p (stream_of ps ++ rest) w.0, read_packets)
      (rw (read_packets-stream_of ps rest fuel w.1 e (omega arith)))
