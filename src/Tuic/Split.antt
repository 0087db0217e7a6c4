-- ===== src/Tuic/Split.antt =====
-- The split of a payload into commands: what the fragments carry, and that they fit.
use aerion.Base.{
  min, ℕ, zero, suc, ◌+◌, ◌*◌, ◌%◌, ◌^◌, ◌≤◌, ◌<◌, ◌≡◌, refl, ◌∙◌, ap, Option, none, some, List, [],
  ◌∷◌, ◌++◌, arith, length, take, drop, length-take, length-drop, take-append-drop, get_or, ok,
  subst,
}
use aerion.Base.Text.{Text}
use aerion.Fragments.Assembly.{joined}
use aerion.Protocol.Target.{ProxyTarget, IsTarget}
use aerion.Tuic.{TuicPacketCommand, encode_rest}
use aerion.Tuic.Receive.{parse_packet_command}
use aerion.Tuic.Wire.{IsCommand, bytes_of, parse_packet_command-IsSent, none-IsWireAddress}

-- The pieces that the loop takes from a payload.
abbrev pub cut : ℕ → ℕ → Text → List Text
cut capacity zero payload = []
cut capacity (suc left) payload =
    let size = min capacity (length payload) in
    take size payload ∷ cut capacity left (drop size payload)

pub length-cut : (capacity left : ℕ) (payload : Text) → length (cut capacity left payload) ≡ left
length-cut capacity zero payload = refl
length-cut capacity (suc left) payload =
    ap suc (length-cut capacity left (drop (min capacity (length payload)) payload))

-- Enough pieces have all of the payload.
pub joined-cut :
    (capacity left : ℕ) (payload : Text)
    → length payload ≤ left * capacity
    → joined (cut capacity left payload) ≡ payload
joined-cut capacity zero [] h = refl
joined-cut capacity zero (b ∷ payload) h = absurd (omega arith)
joined-cut capacity (suc left) payload h =
    let size = min capacity (length payload) in
    ap (λ s. take size payload ++ s)
      (joined-cut capacity left (drop size payload) (ground (arith, length-drop size payload)))
    ∙ take-append-drop size payload

module _ (assoc_id packet_id total max_frame_len : ℕ) (target : ProxyTarget) where
  -- Only the first fragment has the address.
  abbrev pub target_of : ℕ → Option ProxyTarget
  target_of zero = some target
  target_of (suc frag_id) = none

  -- The command of the fragment with an index and a piece of the payload.
  abbrev pub command : ℕ → Text → TuicPacketCommand
  command frag_id piece = record {
    assoc_id = assoc_id;
    packet_id = packet_id;
    frag_total = total;
    frag_id = frag_id;
    target = target_of frag_id;
    payload = piece;
  }

  -- The frames from an index on are the commands of the pieces, and none is too long.
  abbrev pub AllSent : ℕ → List Text → List Text → Type 0
  AllSent frag_id [] [] = Unit {0}
  AllSent frag_id [] (piece ∷ pieces) = ⊥
  AllSent frag_id (frame ∷ frames) [] = ⊥
  AllSent frag_id (frame ∷ frames) (piece ∷ pieces) =
      (parse_packet_command frame ≡ ok (command frag_id piece))
      × ((length frame ≤ max_frame_len) × AllSent (suc frag_id) frames pieces)

  AllSent-at :
      (first : ℕ) (frames pieces : List Text) (i : ℕ)
      → AllSent first frames pieces
      → i < length pieces
      → parse_packet_command (get_or frames i []) ≡ ok (command (first + i) (get_or pieces i []))
  AllSent-at first [] [] i s h = absurd (omega arith)
  AllSent-at first [] (piece ∷ pieces) i s h = absurd s
  AllSent-at first (frame ∷ frames) [] i s h = absurd s
  AllSent-at first (frame ∷ frames) (piece ∷ pieces) zero (parsed, (fits, s)) h =
      subst (λ k. parse_packet_command frame ≡ ok (command k piece)) (omega arith) parsed
  AllSent-at first (frame ∷ frames) (piece ∷ pieces) (suc i) (parsed, (fits, s)) h =
      subst (λ k. parse_packet_command (get_or frames i []) ≡ ok (command k (get_or pieces i [])))
        (omega arith) (AllSent-at (suc first) frames pieces i s (omega arith))

  pub AllSent-index :
      (frames pieces : List Text) (i : ℕ)
      → AllSent 0 frames pieces
      → i < length pieces
      → parse_packet_command (get_or frames i []) ≡ ok (command i (get_or pieces i []))
  AllSent-index frames pieces i s h =
      subst (λ k. parse_packet_command (get_or frames i []) ≡ ok (command k (get_or pieces i [])))
        (omega arith) (AllSent-at 0 frames pieces i s h)

  -- What the lemmas below need of the packet.
  pub record IsSplit : Type 0 where
    pub assoc_small : assoc_id < 256 ^ 2
    pub packet_small : packet_id < 256 ^ 2
    pub total_small : total ≤ 255
    pub target_valid : IsTarget target

  pub command-IsCommand :
      (frag_id : ℕ) (piece : Text)
      → IsSplit
      → frag_id < total
      → length piece ≤ 65535
      → IsCommand (command frag_id piece)
  command-IsCommand zero piece s h short = record {
    assoc_small = s.assoc_small;
    packet_small = s.packet_small;
    total_small = omega (arith, s.total_small);
    in_range = h;
    target_valid = s.target_valid;
    addressed = ground arith;
    payload_short = short;
  }
  command-IsCommand (suc frag_id) piece s h short = record {
    assoc_small = s.assoc_small;
    packet_small = s.packet_small;
    total_small = omega (arith, s.total_small);
    in_range = h;
    target_valid = tt;
    addressed = ground (arith, h);
    payload_short = short;
  }

  pub encode_rest-AllSent :
      (capacity left frag_id : ℕ) (payload : Text)
      → IsSplit
      → suc frag_id + left ≤ total
      → capacity ≤ 65535
      → 11 + capacity ≤ max_frame_len
      → (frames : List Text) × (encode_rest assoc_id packet_id total capacity left
            (suc frag_id)
            payload
          ≡ ok frames)
        × AllSent (suc frag_id) frames (cut capacity left payload)
  unfolding encode_rest
  encode_rest-AllSent capacity zero frag_id payload s h small fits = ([], refl, tt)
  encode_rest-AllSent capacity (suc left) frag_id payload s h small fits =
      let size = min capacity (length payload) in
      let piece = take size payload in
      let short : length piece ≤ capacity = ground (arith, length-take size payload) in
      let frame = bytes_of (command (suc frag_id) piece) (0xff ∷ []) in
      let c =
        command-IsCommand (suc frag_id) piece s (omega (arith, h)) (omega (arith, short, small)) in
      let one =
        parse_packet_command-IsSent (command (suc frag_id) piece) (0xff ∷ []) c
          none-IsWireAddress in
      let (frames, encoded, sent) =
        encode_rest-AllSent capacity left (suc frag_id) (drop size payload) s (omega (arith, h))
          small fits in
      let same : total % 2 ^ 8 ≡ total = omega (arith, s.total_small) in
      let same_id : suc frag_id % 2 ^ 8 ≡ suc frag_id = omega (arith, s.total_small, h) in
      (
        frame ∷ frames,
        rw (same, same_id, one.encoded, encoded) refl,
        (one.parsed, (omega (arith, one.size, short, fits), sent)),
      )
