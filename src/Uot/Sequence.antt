-- ===== src/Uot/Sequence.antt =====
-- A sequence of datagrams, encoded one after the other and received in pieces.
use aerion.Base.{
  ℕ, ◌+◌, ◌≤◌, ◌≡◌, refl, ap, ◌∙◌, sym, false, List, [], ◌∷◌, ◌++◌, All, length, Result, ok,
  ok_injective, ◌>>=◌,
}
use aerion.Base.Text.{Text}
use aerion.Protocol.Stream.{WireError}
use aerion.Protocol.Target.{ProxyTarget, IsTarget, unscoped}
use aerion.Uot.{UotRequest, StreamPacket, encode_associate_packet}
use aerion.Uot.Packets.{associate-IsPacket_of}
use aerion.Uot.Chunks.{Sent, packets, bytes, join, receive, max_uot_buffer, receive-packets}

-- A target and a payload.
abbrev pub Datagram : Type 0
Datagram = ProxyTarget × Text

abbrev pub IsDatagram : Datagram → Type 0
IsDatagram (target, payload) = IsTarget target × (length payload ≤ 65535)

-- What `encode_associate_packet` gives for the datagram has at most `b` bytes.
abbrev pub FitsIn : ℕ → Datagram → Type 0
FitsIn b (target, payload) =
    (packet : Text) → encode_associate_packet target payload ≡ ok packet → length packet ≤ b

-- The packets of the datagrams, one after the other.
unfoldable pub encode_packets : List Datagram → Result WireError Text
encode_packets [] = ok []
encode_packets ((target, payload) ∷ ds) = do
  packet ← encode_associate_packet target payload
  rest ← encode_packets ds
  ok (packet ++ rest)

-- What the receiver is to see of them.
abbrev pub received : List Datagram → List StreamPacket
received [] = []
received ((target, payload) ∷ ds) = (unscoped target, payload, false) ∷ received ds

-- The datagrams with their packets.
record AreSent (b : ℕ) (ds : List Datagram) : Type 0 where
  sent : List Sent
  encoded : encode_packets ds ≡ ok (bytes sent)
  seen : packets sent ≡ received ds
  short : All (λ s. length s.packet ≤ b) sent

datagrams-AreSent :
    (b : ℕ) (ds : List Datagram) → All IsDatagram ds → All (FitsIn b) ds → AreSent b ds
unfolding encode_packets
datagrams-AreSent b [] valid fit = record { sent = []; encoded = refl; seen = refl; short = tt }
datagrams-AreSent b ((target, payload) ∷ ds) ((h, small), valid) (f, fit) =
    let (packet, p) = associate-IsPacket_of target payload h small in
    let rest = datagrams-AreSent b ds valid fit in
    let first : Sent = record {
      target = target;
      payload = payload;
      packet = packet;
      is_packet = p;
    } in
    record {
      sent = first ∷ rest.sent;
      encoded = rw (p.encoded, rest.encoded) refl;
      seen = ap (◌∷◌ (unscoped target, payload, false)) rest.seen;
      short = (f packet p.encoded, rest.short);
    }

module _ (request : UotRequest) (associate : request.is_connect ≡ false) where
  -- For an associate request: datagrams with targets that the Rust type can hold, hosts of at most 255
  -- bytes and payloads of at most 65535 bytes are encoded one after the other, each in at most `b` bytes.
  -- However the stream is cut into pieces, as long as a piece and `b` bytes together stay within the
  -- buffer limit, the payloads arrive in their order with their targets (an IPv6 one with flow information
  -- and scope 0, which are not sent), and nothing is left over.
  pub receive-encode_packets :
      (b : ℕ) (ds : List Datagram) (stream : Text) (pieces : List Text)
      → All IsDatagram ds
      → encode_packets ds ≡ ok stream
      → All (FitsIn b) ds
      → join pieces ≡ stream
      → All (λ piece. b + length piece ≤ max_uot_buffer) pieces
      → receive request [] pieces ≡ ok (received ds, [])
  receive-encode_packets b ds stream pieces valid encoded fit cut room =
      let a = datagrams-AreSent b ds valid fit in
      let whole : join pieces ≡ bytes a.sent = cut ∙ ok_injective (sym encoded ∙ a.encoded) in
      receive-packets request associate b a.sent pieces whole a.short room
      ∙ ap (λ ps. ok (ps, [])) a.seen
