-- ===== src/Uot/Chunks.antt =====
-- The relay's loop over the packets that have arrived, and a stream that arrives in pieces.
use aerion.Base.{
  ℕ, zero, suc, ◌+◌, ◌≤◌, ◌<◌, ◌≡◌, refl, sym, ap, ◌∙◌, true, false, none, some, List, [], ◌∷◌,
  ◌++◌, append_assoc, append-nil, arith, leb, All, if◌then◌else◌, length, length-append, Result, ok,
  err, ◌>>=◌, inl, inr, Bool-cases, leb→le,
}
use aerion.Base.Text.{Text}
use aerion.Protocol.Stream.{WireError, incomplete, payload_too_large}
use aerion.Protocol.Target.{ProxyTarget, unscoped}
use aerion.Uot.{
  UotRequest, StreamPacket, take_stream_packet, connect_packet_len, associate_packet_len,
  payload_len_offset,
}
use aerion.Uot.Packets.{IsPacket}
use aerion.Uot.Streams.{take_whole, take_part}

-- `while let Some(packet) = take_stream_packet(..)?`, on fuel.
unfoldable pub drain : ℕ → UotRequest → Text → Result WireError (List StreamPacket × Text)
unfolding take_stream_packet
drain zero request pending = err incomplete
drain (suc fuel) request pending = do
  taken ← take_stream_packet request pending
  elim taken.0 [
    | none ↦ ok ([], taken.1)
    | some packet ↦ do rest ← drain fuel request taken.1; ok (packet ∷ rest.0, rest.1)
  ]

abbrev pub max_uot_buffer : ℕ
max_uot_buffer = 65536

-- Each piece that arrives is added to the pending bytes if these stay within the limit, and the loop
-- runs.
unfoldable pub receive : UotRequest → Text → List Text → Result WireError (List StreamPacket × Text)
unfolding drain
receive request pending [] = ok ([], pending)
receive request pending (piece ∷ pieces) = do
  buffer ←
      (if leb (length pending + length piece) max_uot_buffer
        then ok (pending ++ piece)
        else err payload_too_large)
  first ← drain (suc (length buffer)) request buffer
  later ← receive request first.1 pieces
  ok (first.0 ++ later.0, later.1)

-- A packet with its encoded form.
pub record Sent : Type 0 where
  pub target : ProxyTarget
  pub payload : Text
  pub packet : Text
  pub is_packet : IsPacket target payload packet

abbrev pub packets : List Sent → List StreamPacket
packets [] = []
packets (s ∷ ss) = (unscoped s.target, s.payload, false) ∷ packets ss

abbrev pub bytes : List Sent → Text
bytes [] = []
bytes (s ∷ ss) = s.packet ++ bytes ss

abbrev pub join : List Text → Text
join [] = []
join (p ∷ ps) = p ++ join ps

packets-append : (xs ys : List Sent) → packets (xs ++ ys) ≡ packets xs ++ packets ys
packets-append [] ys = refl
packets-append (x ∷ xs) ys = ap (◌∷◌ (unscoped x.target, x.payload, false)) (packets-append xs ys)

head_tail {ℓ} : {A : Type ℓ} {x y : A} {xs ys : List A} → (x ∷ xs) ≡ (y ∷ ys) → (x ≡ y) × (xs ≡ ys)
head_tail e = ground (arith, e)

-- Of two splits of one text, the longer first part begins with the shorter.
split_longer {ℓ} :
    {A : Type ℓ} (a b c d : List A)
    → a ++ b ≡ c ++ d
    → length c ≤ length a
    → (e : List A) × (a ≡ c ++ e) × (d ≡ e ++ b)
split_longer a b [] d h le = (a, refl, sym h)
split_longer [] b (x ∷ c) d h le = absurd (omega arith)
split_longer (y ∷ a) b (x ∷ c) d h le =
    let (same, tails) = head_tail h in
    let (e, first, second) = split_longer a b c d tails (omega arith) in
    (e, rw (same, first) refl, second)

nil_has_no_length : (n : ℕ) → associate_packet_len [] ≡ ok (some n) → ⊥
unfolding associate_packet_len payload_len_offset
nil_has_no_length n e = cc

packet_positive :
    (t : ProxyTarget) (payload packet : Text) → IsPacket t payload packet → 0 < length packet
packet_positive t payload [] h = absurd (nil_has_no_length 0 (h.measured []))
packet_positive t payload (x ∷ xs) h = omega arith

nil_is_not {ℓ} : {A : Type ℓ} {x : A} {xs : List A} → (x ∷ xs) ≡ [] → ⊥
nil_is_not e = cc

nothing : (request : UotRequest) → take_stream_packet request [] ≡ ok (none, [])
unfolding take_stream_packet connect_packet_len associate_packet_len payload_len_offset
nothing request = ground arith

unfinished :
    (q rest pending later packet : Text)
    → packet ≡ pending ++ q
    → later ≡ q ++ rest
    → later ≡ []
    → length pending < length packet
    → ⊥
unfinished q rest pending later packet first second over short = omega (
  arith,
  ap length first,
  ap length second,
  ap length over,
  length-append pending q,
  length-append q rest,
  short,
)

no_bytes : (ss : List Sent) → bytes ss ≡ [] → ss ≡ []
no_bytes [] e = refl
no_bytes (s ∷ ss) e =
    let positive = packet_positive s.target s.payload s.packet s.is_packet in
    absurd (omega (arith, ap length e, length-append s.packet (bytes ss), positive))

module _ (request : UotRequest) (associate : request.is_connect ≡ false) where
  -- What the loop leaves: the packets that were whole are taken, and the first of the others is not.
  record IsDrained (ss : List Sent) (pending later : Text)
      (r : Result WireError (List StreamPacket × Text)) : Type 0 where
    whole : List Sent
    others : List Sent
    rest : Text
    all : ss ≡ whole ++ others
    result : r ≡ ok (packets whole, rest)
    left : rest ++ later ≡ bytes others
    bounded : (b : ℕ) → All (λ s. length s.packet ≤ b) ss → length rest ≤ b
    finished : later ≡ [] → others ≡ []

  drain_all :
      (fuel : ℕ) (ss : List Sent) (pending later : Text)
      → pending ++ later ≡ bytes ss
      → length pending < fuel
      → IsDrained ss pending later (drain fuel request pending)
  unfolding drain
  drain_all zero ss pending later e enough = absurd (omega arith)
  drain_all (suc fuel) [] [] later e enough = rw (nothing request) (record {
    whole = [];
    others = [];
    rest = [];
    all = refl;
    result = refl;
    left = e;
    bounded = λ b _. omega arith;
    finished = λ _. refl;
  })
  drain_all (suc fuel) [] (b ∷ s) later e enough = absurd (nil_is_not e)
  drain_all (suc fuel) (s ∷ ss) pending later e enough =
      elim (Bool-cases (leb (length s.packet) (length pending))) [
        | inl enough' ↦
            let (rest, first, second) =
              split_longer pending later s.packet (bytes ss) e
                (leb→le (length s.packet) (length pending) enough') in
            let positive = packet_positive s.target s.payload s.packet s.is_packet in
            let smaller : length rest < fuel =
              omega (arith, ap length first, length-append s.packet rest, positive, enough) in
            let d = drain_all fuel ss rest later (sym second) smaller in
            rw (first, take_whole request associate s.target s.payload s.packet rest s.is_packet)
              (rw (d.result) (record {
                whole = s ∷ d.whole;
                others = d.others;
                rest = d.rest;
                all = ap (◌∷◌ s) d.all;
                result = refl;
                left = d.left;
                bounded = λ b h. d.bounded b h.1;
                finished = d.finished;
              }))
        | inr less ↦
            let short : length pending < length s.packet = ground (arith, less) in
            let (q, first, second) =
              split_longer s.packet (bytes ss) pending later (sym e) (omega (arith, short)) in
            rw
              (take_part request associate s.target s.payload s.packet pending q s.is_packet first
                short)
              (record {
                whole = [];
                others = s ∷ ss;
                rest = pending;
                all = refl;
                result = refl;
                left = e;
                bounded = λ b h. omega (arith, short, h.0);
                finished = λ none_later.
                    absurd (
                      unfinished q (bytes ss) pending later s.packet first second none_later short);
              })
      ]

  All-suffix {ℓ κ} : {A : Type ℓ} (P : A → Type κ) (xs ys : List A) → All P (xs ++ ys) → All P ys
  All-suffix P [] ys h = h
  All-suffix P (x ∷ xs) ys h = All-suffix P xs ys h.1

  receive_from :
      (b : ℕ) (pieces : List Text) (ss : List Sent) (pending : Text)
      → pending ++ join pieces ≡ bytes ss
      → length pending ≤ b
      → All (λ s. length s.packet ≤ b) ss
      → All (λ piece. b + length piece ≤ max_uot_buffer) pieces
      → (join pieces ≡ [] → ss ≡ [])
      → receive request pending pieces ≡ ok (packets ss, [])
  unfolding receive
  receive_from b [] ss pending e small fit room done =
      rw (done refl, sym (append-nil pending) ∙ e ∙ ap bytes (done refl)) refl
  receive_from b (piece ∷ pieces) ss pending e small fit room done =
      let whole : (pending ++ piece) ++ join pieces ≡ bytes ss =
        append_assoc pending piece (join pieces) ∙ e in
      let d =
        drain_all (suc (length (pending ++ piece))) ss (pending ++ piece) (join pieces) whole
          (omega arith) in
      let inside : leb (length pending + length piece) max_uot_buffer ≡ true =
        ground (arith, small, room.0) in
      let later =
        receive_from b pieces d.others d.rest (d.left) (d.bounded b fit)
          (All-suffix (λ s. length s.packet ≤ b) d.whole d.others (rw (d.all) at fit)) room.1
          d.finished in
      rw (inside, d.result, later)
        (ap (λ ps. ok (ps, [])) (sym (ap packets (d.all) ∙ packets-append d.whole d.others)))

  -- Packets in their encoded form.
  pub receive-packets :
      (b : ℕ) (ss : List Sent) (pieces : List Text)
      → join pieces ≡ bytes ss
      → All (λ s. length s.packet ≤ b) ss
      → All (λ piece. b + length piece ≤ max_uot_buffer) pieces
      → receive request [] pieces ≡ ok (packets ss, [])
  receive-packets b ss pieces e fit room =
      receive_from b pieces ss [] e (omega arith) fit room (λ over. no_bytes ss (sym e ∙ over))
