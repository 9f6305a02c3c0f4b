-- ===== src/Examples/Packets.antt =====
-- Packets and payloads, for src/packet.cpp and src/session.cpp.
use tinymq_broker.Base.{
  ℕ, zero, suc, ap, ◌%◌, ◌^◌, ◌<◌, ◌≡◌, ◌↔◌, refl, Bytes, true, some, [], ◌∷◌, ◌++◌, length, arith,
  codes, nat_equality, bytes_equality,
}
use tinymq_broker.Packet.Types.{PacketType, code, of_code, IsByteType}
use tinymq_broker.Packet.{Packet, make_packet, serialize, deserialize, empty_packet}
use tinymq_broker.Packet.RoundTrip.{
  IsWellFormed, deserialize-serialize, deserialize-serialize_oversized,
}
use tinymq_broker.Session.Frames.{read_packet, read_packets}
use tinymq_broker.Session.Streams.{stream_of, read_packets-stream_of}
use tinymq_broker.Session.Handlers.{parse_publish}
use tinymq_broker.Session.Payloads.{parse_publish_iff}

abbrev sub_packet : Packet
sub_packet = record {
  packet_type = PacketType.sub;
  flags = 1;
  payload_length = 3;
  payload = codes "a/t";
}

abbrev ping_packet : Packet
ping_packet = record {
  packet_type = PacketType.topic_req;
  flags = 0;
  payload_length = 0;
  payload = [];
}

sub-IsByteType : IsByteType PacketType.sub
unfolding code of_code
sub-IsByteType = record { cast_back = refl; in_byte = omega arith }

topic_req-IsByteType : IsByteType PacketType.topic_req
unfolding code of_code
topic_req-IsByteType = record { cast_back = refl; in_byte = omega arith }

sub_packet-IsWellFormed : IsWellFormed sub_packet
sub_packet-IsWellFormed = record { named = sub-IsByteType; length_field = refl }

ping_packet-IsWellFormed : IsWellFormed ping_packet
ping_packet-IsWellFormed = record { named = topic_req-IsByteType; length_field = refl }

deserialize-serialize_example :
    deserialize empty_packet (serialize sub_packet ++ (7 ∷ 8 ∷ [])) ≡ (true, sub_packet)
deserialize-serialize_example =
    deserialize-serialize empty_packet sub_packet (7 ∷ 8 ∷ []) sub_packet-IsWellFormed (omega arith)

unfoldable zeros : ℕ → Bytes
zeros zero = []
zeros (suc n) = 0 ∷ zeros n

length-zeros : (n : ℕ) → length (zeros n) ≡ n
unfolding zeros
length-zeros zero = refl
length-zeros (suc n) = ap suc (length-zeros n)

deserialize-serialize_oversized_example :
    (r : Packet) × (deserialize empty_packet
        (serialize (make_packet PacketType.sub 0 (zeros 70000)))
      ≡ (true, r))
    × (length r.payload ≡ length (zeros 70000) % 2 ^ 16)
    × (length r.payload < length (zeros 70000))
deserialize-serialize_oversized_example =
    deserialize-serialize_oversized empty_packet PacketType.sub 0 (zeros 70000) sub-IsByteType
      (rw (length-zeros 70000) (omega arith))

read_packets-stream_of_example :
    read_packets 3 (stream_of (sub_packet ∷ ping_packet ∷ []) ++ (9 ∷ []))
    ≡ (sub_packet ∷ ping_packet ∷ [], 9 ∷ [])
unfolding read_packet
read_packets-stream_of_example =
    read_packets-stream_of (sub_packet ∷ ping_packet ∷ []) (9 ∷ []) 3
      (
        record { well_formed = sub_packet-IsWellFormed; fits = omega arith },
        (record { well_formed = ping_packet-IsWellFormed; fits = omega arith }, tt),
      )
      refl (omega arith)

parse_publish_iff_example :
    (parse_publish (3 ∷ codes "a/thi") ≡ some (codes "a/t", codes "hi"))
    ↔ ((3 ∷ codes "a/thi" ≡ 3 ∷ codes "a/t" ++ codes "hi") × (0 < 2))
parse_publish_iff_example = parse_publish_iff (3 ∷ codes "a/thi") (codes "a/t") (codes "hi")
