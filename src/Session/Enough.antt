-- ===== src/Session/Enough.antt =====
-- The fuel of the read loop of src/session.cpp.
use tinymq_broker.Base.{
  ℕ, zero, suc, ◌<◌, ◌≡◌, inl, inr, refl, ap, Bytes, not, some, ◌∷◌, length, length-drop,
  if◌then◌else◌, Option-cases, arith,
}
use tinymq_broker.Packet.{Packet, word16}
use tinymq_broker.Db.Listings.{Rendering}
use tinymq_broker.Broker.World.{Handle, World, Json, ◌>>=◌, ◌>>◌, gets}
use tinymq_broker.Broker.Sessions.{remove_session}
use tinymq_broker.Session.Frames.{read_packet}
use tinymq_broker.Session.Handlers.{serve, process_packet}

read_packet_shorter :
    (stream rest : Bytes) (p : Packet)
    → read_packet stream ≡ some (p, rest)
    → length rest < length stream
unfolding read_packet
read_packet_shorter (t ∷ f ∷ hi ∷ lo ∷ body) rest p e =
    ground (arith, length-drop (word16 hi lo) body)
read_packet_shorter _ rest p e = cc

module _ (json : Json) (r : Rendering) where
  -- A connection is served to its end with any fuel greater than the number of bytes that arrive:
  -- two such amounts give the same result and the same world.
  pub serve_enough :
      (n m : ℕ) (h : Handle) (stream : Bytes) (w : World)
      → length stream < n
      → length stream < m
      → serve json r n h stream w ≡ serve json r m h stream w
  unfolding serve ◌>>=◌ gets
  serve_enough zero m h stream w hn hm = absurd (omega arith)
  serve_enough (suc n) zero h stream w hn hm = absurd (omega arith)
  serve_enough (suc n) (suc m) h stream w hn hm = elim (Option-cases (read_packet stream)) [
    | inl e ↦ rw e refl
    | inr (q, e) ↦
        let shorter = read_packet_shorter stream q.1 q.0 e in
        let same : serve json r n h q.1 ≡ serve json r m h q.1 =
          λ i v. serve_enough n m h q.1 v (omega arith) (omega arith) i in
        rw e (
          ap
            (λ k.
              (if not (w.objects h).is_open
                  then remove_session h
                  else (process_packet json r h q.0 >> k))
                w)
            same)
  ]
