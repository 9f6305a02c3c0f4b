-- ===== src/Packet.antt =====
-- src/packet.h and src/packet.cpp: packet types, packets, their encoding and decoding.
pub mod Types
pub mod RoundTrip
use tinymq_broker.Base.{
  ℕ, ◌+◌, ◌*◌, ◌/◌, ◌%◌, ◌^◌, Bytes, Bool, Option, none, some, List, [], ◌∷◌, ◌++◌, ltb, length,
  take, drop, get_or, if◌then◌else◌,
}
use Types.{PacketType, code, of_code}

-- `PacketHeader` and the payload; `payload_length` is the `uint16_t` of the header.
pub record Packet : Type 0 where
  pub packet_type : PacketType
  pub flags : ℕ
  pub payload_length : ℕ
  pub payload : Bytes

-- The constructor truncates the size to 16 bits.
unfoldable pub make_packet : PacketType → ℕ → Bytes → Packet
make_packet t f p = record {
  packet_type = t;
  flags = f;
  payload_length = length p % 2 ^ 16;
  payload = p;
}

-- The default constructor.
abbrev pub empty_packet : Packet
empty_packet = record { packet_type = of_code 0; flags = 0; payload_length = 0; payload = [] }

unfoldable pub serialize : Packet → Bytes
serialize p =
    code p.packet_type % 2 ^ 8
    ∷ p.flags
    ∷ p.payload_length / 2 ^ 8 % 2 ^ 8
    ∷ p.payload_length % 2 ^ 8
    ∷ p.payload

-- `(data[2] << 8) | data[3]`, for bytes.
abbrev pub word16 : ℕ → ℕ → ℕ
word16 hi lo = hi * 2 ^ 8 + lo

-- The header is written before the second length test, so a failure leaves it changed.
unfoldable pub deserialize : Packet → Bytes → Bool × Packet
deserialize p (t ∷ f ∷ hi ∷ lo ∷ rest) =
    let headed = record p { packet_type = of_code t; flags = f; payload_length = word16 hi lo } in
    if ltb (length rest) (word16 hi lo)
    then (Bool.false, headed)
    else (Bool.true, record headed { payload = take (word16 hi lo) rest })
deserialize p _ = (Bool.false, p)
