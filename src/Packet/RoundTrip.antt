-- ===== src/Packet/RoundTrip.antt =====
-- Encoding and decoding agree, up to the 16-bit length field.
use tinymq_broker.Base.{
  ℕ, ◌+◌, ◌/◌, ◌%◌, ◌^◌, ◌≤◌, ◌<◌, ◌≡◌, Bytes, true, ◌∷◌, ◌++◌, length, length-append, length-take,
  take, take-append_length, arith,
}
use tinymq_broker.Packet.{Packet, make_packet, serialize, deserialize, word16}
use tinymq_broker.Packet.Types.{PacketType, code, of_code, of_code-code, IsByteType}

-- A packet as the constructor makes it from bytes.
pub record IsWellFormed (p : Packet) : Type 0 where
  pub named : IsByteType p.packet_type
  pub length_field : p.payload_length ≡ length p.payload % 2 ^ 16

pub length-serialize : (p : Packet) → length (serialize p) ≡ 4 + length p.payload
unfolding serialize
length-serialize p = omega arith

deserialize_header :
    (q : Packet) (t f hi lo : ℕ) (body rest : Bytes)
    → word16 hi lo ≡ length body
    → deserialize q (t ∷ f ∷ hi ∷ lo ∷ body ++ rest) ≡ (
      true,
      record { packet_type = of_code t; flags = f; payload_length = length body; payload = body },
    )
unfolding deserialize
deserialize_header q t f hi lo body rest e =
    rw e (ground (arith, length-append body rest, take-append_length body rest))

pub header_length :
    (p : Packet)
    → IsWellFormed p
    → length p.payload < 2 ^ 16
    → word16 (p.payload_length / 2 ^ 8 % 2 ^ 8) (p.payload_length % 2 ^ 8) ≡ length p.payload
header_length p w h = omega (arith, w.length_field)

-- Decoding what was encoded gives the packet back, whatever bytes follow it, while the payload has
-- fewer than 65536 bytes.
pub deserialize-serialize :
    (q p : Packet) (rest : Bytes)
    → IsWellFormed p
    → length p.payload < 2 ^ 16
    → deserialize q (serialize p ++ rest) ≡ (true, p)
unfolding serialize
deserialize-serialize q p rest w h = ground (
  arith,
  w.length_field,
  of_code-code p.packet_type w.named,
  deserialize_header q (code p.packet_type % 2 ^ 8) p.flags (p.payload_length / 2 ^ 8 % 2 ^ 8)
      (p.payload_length % 2 ^ 8) p.payload rest (header_length p w h),
)

-- A payload of 65536 bytes or more is cut: the decoder succeeds, and gives back only as many bytes
-- as the wrapped length field says, which are fewer than were encoded.
pub deserialize-serialize_oversized :
    (q : Packet) (t : PacketType) (f : ℕ) (payload : Bytes)
    → IsByteType t
    → 2 ^ 16 ≤ length payload
    → (r : Packet) × (deserialize q (serialize (make_packet t f payload)) ≡ (true, r))
      × (length r.payload ≡ length payload % 2 ^ 16)
      × (length r.payload < length payload)
unfolding serialize deserialize make_packet
deserialize-serialize_oversized q t f payload b h = (
  record {
    packet_type = t;
    flags = f;
    payload_length = length payload % 2 ^ 16;
    payload = take (length payload % 2 ^ 16) payload;
  },
  ground (arith, of_code-code t b),
  omega (arith, length-take (length payload % 2 ^ 16) payload),
  omega (arith, length-take (length payload % 2 ^ 16) payload),
)
