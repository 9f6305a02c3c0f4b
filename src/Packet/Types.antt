-- ===== src/Packet/Types.antt =====
-- `enum class PacketType` of src/packet.h. A byte that no enumerator names is still a value of it.
use native.Mathlib.Nat.{mod-eq_of_lt}
use tinymq_broker.Base.{ℕ, ◌%◌, ◌<◌, ◌≡◌, ap, nat_beq, if◌then◌else◌, arith}

pub data PacketType : Type 0 where
  conn connack pub_ puback sub suback unsub unsuback : PacketType
  topic_req topic_resp : PacketType
  admin_req admin_req_ack admin_notify admin_response admin_result : PacketType
  admin_list_req admin_list_resp admin_resp my_admin_req my_admin_resp : PacketType
  my_topics_req my_topics_resp my_admin_topics_req my_admin_topics_resp : PacketType
  admin_resign admin_resign_ack topic_sensors_req topic_sensors_resp : PacketType
  sensor_status_resp : PacketType
  unnamed : ℕ → PacketType

-- `static_cast<uint8_t>` of an enumerator.
unfoldable pub code : PacketType → ℕ
code conn = 0x01
code connack = 0x02
code pub_ = 0x03
code puback = 0x04
code sub = 0x05
code suback = 0x06
code unsub = 0x07
code unsuback = 0x08
code topic_req = 0x09
code topic_resp = 0x0A
code admin_req = 0x0B
code admin_req_ack = 0x0C
code admin_notify = 0x0D
code admin_response = 0x0E
code admin_result = 0x0F
code admin_list_req = 0x10
code admin_list_resp = 0x11
code admin_resp = 0x12
code my_admin_req = 0x13
code my_admin_resp = 0x14
code my_topics_req = 0x20
code my_topics_resp = 0x21
code my_admin_topics_req = 0x22
code my_admin_topics_resp = 0x23
code admin_resign = 0x24
code admin_resign_ack = 0x25
code topic_sensors_req = 0x26
code topic_sensors_resp = 0x27
code sensor_status_resp = 0x35
code (unnamed n) = n

of_low_code : ℕ → PacketType
of_low_code n =
    if nat_beq n 0x01
    then conn
    else if nat_beq n 0x02
    then connack
    else if nat_beq n 0x03
    then pub_
    else if nat_beq n 0x04
    then puback
    else if nat_beq n 0x05
    then sub
    else if nat_beq n 0x06
    then suback
    else if nat_beq n 0x07
    then unsub
    else if nat_beq n 0x08
    then unsuback
    else if nat_beq n 0x09
    then topic_req
    else if nat_beq n 0x0A
    then topic_resp
    else if nat_beq n 0x0B
    then admin_req
    else if nat_beq n 0x0C
    then admin_req_ack
    else if nat_beq n 0x0D
    then admin_notify
    else if nat_beq n 0x0E
    then admin_response
    else if nat_beq n 0x0F
    then admin_result
    else unnamed n

of_high_code : ℕ → PacketType
unfolding of_low_code
of_high_code n =
    if nat_beq n 0x10
    then admin_list_req
    else if nat_beq n 0x11
    then admin_list_resp
    else if nat_beq n 0x12
    then admin_resp
    else if nat_beq n 0x13
    then my_admin_req
    else if nat_beq n 0x14
    then my_admin_resp
    else if nat_beq n 0x20
    then my_topics_req
    else if nat_beq n 0x21
    then my_topics_resp
    else if nat_beq n 0x22
    then my_admin_topics_req
    else if nat_beq n 0x23
    then my_admin_topics_resp
    else if nat_beq n 0x24
    then admin_resign
    else if nat_beq n 0x25
    then admin_resign_ack
    else if nat_beq n 0x26
    then topic_sensors_req
    else if nat_beq n 0x27
    then topic_sensors_resp
    else if nat_beq n 0x35
    then sensor_status_resp
    else of_low_code n

-- `static_cast<PacketType>` of a byte.
unfoldable pub of_code : ℕ → PacketType
unfolding of_high_code
of_code n = of_high_code n

code-of_low_code : (n : ℕ) → code (of_low_code n) ≡ n
unfolding code of_low_code
code-of_low_code n = ground arith

code-of_high_code : (n : ℕ) → code (of_high_code n) ≡ n
unfolding code of_high_code
code-of_high_code n = ground (arith, code-of_low_code n)

-- Every byte survives the cast to the enumeration and back.
pub code-of_code : (n : ℕ) → code (of_code n) ≡ n
unfolding of_code
code-of_code n = code-of_high_code n

-- A byte as an enumeration value: an enumerator wherever one has that code.
pub record IsByteType (t : PacketType) : Type 0 where
  pub cast_back : of_code (code t) ≡ t
  pub in_byte : code t < 256

pub of_code-IsByteType : (n : ℕ) → n < 256 → IsByteType (of_code n)
of_code-IsByteType n h = record {
  cast_back = ap of_code (code-of_code n);
  in_byte = rw (code-of_code n) h;
}

pub of_code-code : (t : PacketType) → IsByteType t → of_code (code t % 256) ≡ t
of_code-code t h = rw (mod-eq_of_lt h.in_byte) h.cast_back
