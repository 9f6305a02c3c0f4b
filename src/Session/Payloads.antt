-- ===== src/Session/Payloads.antt =====
-- The payloads that the handlers take apart, against the formats that clients write.
use tinymq_broker.Base.{
  ℕ, ◌<◌, ◌≡◌, ◌↔◌, refl, sym, Bytes, Bool, not, some, [], ◌∷◌, ◌++◌, arith, nat_beq, length, take,
  drop, length-append, take-append_length, drop-append_length, take-append-drop, length-take,
  length-drop,
}
use tinymq_broker.Session.Handlers.{parse_publish, parse_response, parse_response_tail}

-- A PUB payload made of a topic and a non-empty message gives both back.
pub parse_publish-format :
    (topic message : Bytes)
    → 0 < length message
    → parse_publish (length topic ∷ topic ++ message) ≡ some (topic, message)
unfolding parse_publish
parse_publish-format topic message h = ground (
  arith,
  length-append topic message,
  take-append_length topic message,
  drop-append_length topic message,
)

-- A PUB payload is accepted only if it is one length byte, that many topic bytes, and a message.
parse_publish_sound :
    (payload topic message : Bytes)
    → parse_publish payload ≡ some (topic, message)
    → (n : ℕ) × (payload ≡ n ∷ topic ++ message) × (length topic ≡ n) × (0 < length message)
unfolding parse_publish
parse_publish_sound [] topic message e = cc
parse_publish_sound (n ∷ rest) topic message e = (
  n,
  ground (arith, take-append-drop n rest),
  ground (arith, length-take n rest),
  ground (arith, length-drop n rest),
)

-- A PUB payload is accepted just if it is the topic behind its length, with a non-empty message behind
-- it, and then this topic and this message are what it is taken apart into.
pub parse_publish_iff :
    (payload topic message : Bytes)
    → (parse_publish payload ≡ some (topic, message))
      ↔ ((payload ≡ length topic ∷ topic ++ message) × (0 < length message))
parse_publish_iff payload topic message = (
  (λ e. let (n, f, g, h) = parse_publish_sound payload topic message e in (rw (f, g) refl, h)),
  (λ (e, h). rw e (parse_publish-format topic message h)),
)

-- An ADMIN_RESPONSE payload of an approval byte, a topic and a requester, each behind a length
-- byte, gives all three back; bytes behind them are ignored.
pub parse_response-format :
    (a : ℕ) (topic requester rest : Bytes)
    → parse_response (a ∷ length topic ∷ topic ++ (length requester ∷ requester ++ rest))
      ≡ some (topic, requester, not (nat_beq a 0))
unfolding parse_response parse_response_tail
parse_response-format a topic requester rest = ground (
  arith,
  length-append topic (length requester ∷ requester ++ rest),
  take-append_length topic (length requester ∷ requester ++ rest),
  drop-append_length topic (length requester ∷ requester ++ rest),
  length-append requester rest,
  take-append_length requester rest,
)

tail_sound :
    (b approved : Bool) (t body topic requester : Bytes)
    → parse_response_tail b t body ≡ some (topic, requester, approved)
    → (rest : Bytes) × (body ≡ length requester ∷ requester ++ rest) × (t ≡ topic) × (b ≡ approved)
unfolding parse_response_tail
tail_sound b approved t [] topic requester e = cc
tail_sound b approved t (m ∷ body) topic requester e = (
  drop m body,
  ground (arith, take-append-drop m body, length-take m body),
  ground arith,
  ground arith,
)

-- An ADMIN_RESPONSE payload is accepted only if it has that format, and the answer is an approval
-- unless its first byte is zero.
pub parse_response_sound :
    (payload topic requester : Bytes) (approved : Bool)
    → parse_response payload ≡ some (topic, requester, approved)
    → (a : ℕ) × (rest : Bytes) × (payload
        ≡ a ∷ length topic ∷ topic ++ (length requester ∷ requester ++ rest))
      × (approved ≡ not (nat_beq a 0))
unfolding parse_response
parse_response_sound (a ∷ n ∷ rest) topic requester approved e =
    let (left, split, same, said) =
      tail_sound (not (nat_beq a 0)) approved (take n rest) (drop n rest) topic requester
        (ground arith) in
    (a, left, ground (arith, take-append-drop n rest, length-take n rest), sym said)
parse_response_sound _ topic requester approved e = cc
