-- ===== src/Tuic/Frames.antt =====
-- A packet in frames: nothing is lost, and no frame is too long.
use native.Mathlib.Nat.{lt-div-mul-add, div-lt_iff_lt-mul}
use aerion.Base.{
  refl, min, ℕ, suc, ◌+◌, ◌-◌, ◌*◌, ◌/◌, ◌%◌, ◌^◌, ◌≤◌, ◌<◌, ◌≡◌, sym, ◌∙◌, ap, inl, inr, false,
  some, List, [], ◌∷◌, ◌++◌, arith, leb, length, take, drop, length-take, length-drop,
  take-append-drop, append-nil, ok, subst, Bool-cases,
}
use aerion.Base.Text.{Text}
use aerion.Fragments.Assembly.{joined}
use aerion.Protocol.Target.{ProxyTarget, ip, domain, IsTarget, unscoped, unscoped-IsTarget}
use aerion.Tuic.{
  encode_packet_command, encode_rest, encode_split, encode_packet_fragments, encode_tuic_address,
  max_packet_payload_len,
}
use aerion.Tuic.Wire.{
  IsWireAddress, IsSent, bytes_of, parse_packet_command-IsSent, encode_tuic_address-IsWireAddress,
  none-IsWireAddress,
}
use aerion.Tuic.Split.{
  AllSent, IsSplit, command, command-IsCommand, encode_rest-AllSent, cut, length-cut, joined-cut,
}

-- A payload in frames: the pieces that the frames carry are those of the payload, each frame is within
-- the limit and is the command of its piece.
pub record InFrames (assoc_id packet_id max_frame_len : ℕ) (target : ProxyTarget) (payload : Text)
    (frames : List Text) : Type 0 where
  pub pieces : List Text
  pub whole : joined pieces ≡ payload
  pub some_piece : 0 < length pieces
  pub few_pieces : length pieces ≤ 255
  pub sent : AllSent assoc_id packet_id (length pieces) max_frame_len target 0 frames pieces

-- The arithmetic of the loop bound: enough fragments for the rest, and not too many.
enough_fragments :
    (rest capacity : ℕ) → 0 < capacity → rest ≤ (rest + capacity - 1) / capacity * capacity
enough_fragments rest capacity h =
    omega (arith, lt-div-mul-add {a = rest + capacity - 1} {b = capacity} h)

few_fragments :
    (rest capacity : ℕ) → 259 ≤ capacity → rest ≤ 65534 → (rest + capacity - 1) / capacity ≤ 254
few_fragments rest capacity h small = omega (
  arith,
  (div-lt_iff_lt-mul {k = capacity} {x = rest + capacity - 1} {y = 255} (omega arith)).1
      (omega arith),
)

capacity_of :
    (max_frame_len address_len : ℕ)
    → 10 + address_len < max_frame_len
    → max_packet_payload_len max_frame_len address_len
      ≡ ok (min (max_frame_len - (10 + address_len)) 65535)
unfolding max_packet_payload_len
capacity_of max_frame_len address_len h = ground arith

encode_split_frames :
    (assoc_id packet_id first next left : ℕ) (target : ProxyTarget) (payload frame : Text)
    {frames : List Text}
    → 1 + (length payload - first + next - 1) / next ≡ suc left
    → suc left ≤ 255
    → encode_packet_command assoc_id packet_id (suc left) 0 (some target) (take first payload)
      ≡ ok frame
    → encode_rest assoc_id packet_id (suc left) next left 1 (drop first payload) ≡ ok frames
    → encode_split assoc_id packet_id target payload first next ≡ ok (frame ∷ frames)
unfolding encode_split
encode_split_frames assoc_id packet_id first next left target payload frame total small one rest =
    let same : suc left % 2 ^ 8 ≡ suc left = omega arith in
    let fewer : suc left - 1 ≡ left = omega arith in
    rw (total, same, fewer, one, rest) ground (arith, small)

module _ (assoc_id packet_id max_frame_len : ℕ) (target : ProxyTarget) (address : Text) where
  -- What the statement about all payloads asks of the packet and of the limit.
  record Sendable : Type 0 where
    assoc_small : assoc_id < 256 ^ 2
    packet_small : packet_id < 256 ^ 2
    target_valid : IsTarget target
    addressed : IsWireAddress (some target) address
    roomy : 270 ≤ max_frame_len

  split_of :
      {total : ℕ} → Sendable → total ≤ 255 → IsSplit assoc_id packet_id total max_frame_len target
  split_of s small = record {
    assoc_small = s.assoc_small;
    packet_small = s.packet_small;
    total_small = small;
    target_valid = s.target_valid;
  }

  first-IsSent :
      (total : ℕ) (piece : Text)
      → Sendable
      → 0 < total
      → total ≤ 255
      → length piece ≤ min (max_frame_len - (10 + length address)) 65535
      → IsSent
          (command assoc_id packet_id total max_frame_len target 0 piece)
          address
          (bytes_of (command assoc_id packet_id total max_frame_len target 0 piece) address)
  first-IsSent total piece s some_total small h =
      parse_packet_command-IsSent (command assoc_id packet_id total max_frame_len target 0 piece)
        address
        (command-IsCommand assoc_id packet_id total max_frame_len target 0 piece (split_of s small)
          some_total (ground (arith, h)))
        s.addressed

  one_frame :
      (payload : Text)
      → Sendable
      → length payload ≤ min (max_frame_len - (10 + length address)) 65535
      → (frames : List Text) × (encode_packet_fragments assoc_id packet_id target payload
            max_frame_len
          ≡ ok frames)
        × InFrames assoc_id packet_id max_frame_len target payload frames
  one_frame payload s h =
      let one = first-IsSent 1 payload s (omega arith) (omega arith) h in
      (
        bytes_of (command assoc_id packet_id 1 max_frame_len target 0 payload) address ∷ [],
        (unfold encode_packet_fragments in
            rw
              (
                s.addressed.written,
                none-IsWireAddress.written,
                capacity_of max_frame_len (length address)
                    (ground (arith, s.addressed.address_short, s.roomy)),
                one.encoded,
              )
              ground (arith, h)),
        record {
          pieces = payload ∷ [];
          whole = append-nil payload;
          some_piece = omega arith;
          few_pieces = omega arith;
          sent =
              (one.parsed, (ground (arith, one.size, h, s.addressed.address_short, s.roomy), tt));
        },
      )

  split_frames :
      (payload : Text)
      → Sendable
      → min (max_frame_len - (10 + length address)) 65535 < length payload
      → length payload ≤ 65535
      → (frames : List Text) × (encode_packet_fragments assoc_id packet_id target payload
            max_frame_len
          ≡ ok frames)
        × InFrames assoc_id packet_id max_frame_len target payload frames
  split_frames payload s h small =
      let first = min (max_frame_len - (10 + length address)) 65535 in
      let next = min (max_frame_len - 11) 65535 in
      let left = (length payload - first + next - 1) / next in
      let facts = s.addressed.address_short in
      let few : suc left ≤ 255 = omega (
        arith,
        few_fragments (length payload - first) next (ground (arith, s.roomy))
            (ground (arith, h, small, facts, s.roomy)),
      ) in
      let one =
        first-IsSent (suc left) (take first payload) s (omega arith) few
          (ground (arith, length-take first payload)) in
      let (frames, encoded, sent) =
        encode_rest-AllSent assoc_id packet_id (suc left) max_frame_len target next left 0
          (drop first payload) (split_of s few) (omega arith) (ground arith)
          (ground (arith, s.roomy)) in
      let pieces = take first payload ∷ cut next left (drop first payload) in
      let size = length-cut next left (drop first payload) in
      let wide : leb (length payload) first ≡ false = ground (arith, h) in
      let frame =
        bytes_of (command assoc_id packet_id (suc left) max_frame_len target 0 (take first payload))
          address in
      let all : AllSent assoc_id packet_id (suc left) max_frame_len target 0 (frame ∷ frames)
          pieces =
        (one.parsed, (ground (arith, one.size, length-take first payload, facts, s.roomy), sent)) in
      (
        frame ∷ frames,
        (unfold encode_packet_fragments in
            rw
              (
                s.addressed.written,
                none-IsWireAddress.written,
                capacity_of max_frame_len (length address) (ground (arith, facts, s.roomy)),
                wide,
                capacity_of max_frame_len 1 (omega (arith, s.roomy)),
              )
              (encode_split_frames assoc_id packet_id first next left target payload frame
                (omega arith) few one.encoded encoded)),
        record {
          pieces = pieces;
          whole =
              ap (λ s. take first payload ++ s)
                (joined-cut next left (drop first payload) (
                  ground (
                    arith,
                    length-drop first payload,
                    enough_fragments (length payload - first) next (ground (arith, s.roomy)),
                  )))
              ∙ take-append-drop first payload;
          some_piece = omega arith;
          few_pieces = omega (arith, size, few);
          sent =
              subst
                (λ n.
                  AllSent assoc_id packet_id (suc n) max_frame_len target 0 (frame ∷ frames) pieces)
                (sym size) all;
        },
      )

-- The frames do not depend on flow information and scope.
encode_packet_fragments-unscoped :
    (assoc_id packet_id max_frame_len : ℕ) (target : ProxyTarget) (payload : Text)
    → encode_packet_fragments assoc_id packet_id target payload max_frame_len
      ≡ encode_packet_fragments assoc_id packet_id (unscoped target) payload max_frame_len
unfolding encode_packet_fragments encode_split encode_packet_command encode_tuic_address unscoped
encode_packet_fragments-unscoped assoc_id packet_id max_frame_len (ip a) payload = refl
encode_packet_fragments-unscoped assoc_id packet_id max_frame_len (domain host port) payload = refl

-- A packet of at most 65535 bytes is put into frames when a frame may have 270 bytes or more. The frames
-- carry the target without its flow information and scope.
pub encode_packet_fragments-InFrames :
    (assoc_id packet_id max_frame_len : ℕ) (target : ProxyTarget) (payload : Text)
    → assoc_id < 256 ^ 2
    → packet_id < 256 ^ 2
    → IsTarget target
    → 270 ≤ max_frame_len
    → length payload ≤ 65535
    → (frames : List Text) × (encode_packet_fragments assoc_id packet_id target payload
          max_frame_len
        ≡ ok frames)
      × InFrames assoc_id packet_id max_frame_len (unscoped target) payload frames
encode_packet_fragments-InFrames assoc_id packet_id max_frame_len target payload assoc_small
      packet_small valid roomy small =
    rw (encode_packet_fragments-unscoped assoc_id packet_id max_frame_len target payload) (
      let (address, a) = encode_tuic_address-IsWireAddress target valid in
      let s : Sendable assoc_id packet_id max_frame_len (unscoped target) address = record {
        assoc_small = assoc_small;
        packet_small = packet_small;
        target_valid = unscoped-IsTarget target valid;
        addressed = a;
        roomy = roomy;
      } in
      let first = min (max_frame_len - (10 + length address)) 65535 in
      elim (Bool-cases (leb (length payload) first)) [
        | inl e ↦
            one_frame assoc_id packet_id max_frame_len (unscoped target) address payload s
              (ground (arith, e))
        | inr e ↦
            split_frames assoc_id packet_id max_frame_len (unscoped target) address payload s
              (ground (arith, e)) small
      ])
