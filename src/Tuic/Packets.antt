-- ===== src/Tuic/Packets.antt =====
-- Packets from the sender's split to the receiver's session.
use aerion.Base.{
  ℕ, suc, Bool, some, ◌^◌, ◌≤◌, ◌<◌, ◌≡◌, refl, sym, ap, inl, inr, true, none, List, [], ◌∷◌, arith,
  ltb, ltb→lt, length, lookup, pair_eq, nat_eq, All, ok, ok_injective, subst, ◌∙◌, Bool-cases,
}
use aerion.Base.Text.{Text}
use aerion.Fragments.Assembly.{joined}
use aerion.Fragments.Orders.{IsOrder}
use aerion.Protocol.Target.{ProxyTarget, IsTarget, unscoped}
use aerion.Tuic.{Pending, max_pending_packets, encode_packet_fragments}
use aerion.Tuic.Split.{AllSent, AllSent-index}
use aerion.Tuic.Frames.{encode_packet_fragments-InFrames}
use aerion.Tuic.Delivery.{
  Arrival, own, order_of, one_answer, deliver, Allowed, deliver_several, deliver_single,
}

module _ (assoc_id packet_id total max_frame_len : ℕ) (target : ProxyTarget) where
  AllSent-length :
      (first : ℕ) (frames pieces : List Text)
      → AllSent assoc_id packet_id total max_frame_len target first frames pieces
      → length frames ≡ length pieces
  AllSent-length first [] [] s = refl
  AllSent-length first [] (piece ∷ pieces) s = absurd s
  AllSent-length first (frame ∷ frames) [] s = absurd s
  AllSent-length first (frame ∷ frames) (piece ∷ pieces) s =
      ap suc (AllSent-length (suc first) frames pieces s.1.1)

  AllSent-fits :
      (first : ℕ) (frames pieces : List Text)
      → AllSent assoc_id packet_id total max_frame_len target first frames pieces
      → All (λ frame. length frame ≤ max_frame_len) frames
  AllSent-fits first [] pieces s = tt
  AllSent-fits first (frame ∷ frames) [] s = absurd s
  AllSent-fits first (frame ∷ frames) (piece ∷ pieces) s =
      (s.1.0, AllSent-fits (suc first) frames pieces s.1.1)

-- Splitting never fails for a payload of at most 65535 bytes and a frame limit of at least 270 bytes,
-- when the target is one that the Rust type can hold, with a host of at most 255 bytes: it gives between
-- 1 and 255 frames, none longer than the limit.
pub encode_packet_fragments_bounds :
    (assoc_id packet_id max_frame_len : ℕ) (target : ProxyTarget) (payload : Text)
    → assoc_id < 256 ^ 2
    → packet_id < 256 ^ 2
    → IsTarget target
    → 270 ≤ max_frame_len
    → length payload ≤ 65535
    → (frames : List Text) × (encode_packet_fragments assoc_id packet_id target payload
          max_frame_len
        ≡ ok frames)
      × (0 < length frames)
      × (length frames ≤ 255)
      × All (λ frame. length frame ≤ max_frame_len) frames
encode_packet_fragments_bounds assoc_id packet_id max_frame_len target payload assoc_small
      packet_small valid roomy small =
    let (frames, e, f) =
      encode_packet_fragments-InFrames assoc_id packet_id max_frame_len target payload assoc_small
        packet_small valid roomy small in
    let size =
      AllSent-length assoc_id packet_id (length f.pieces) max_frame_len (unscoped target) 0 frames
        f.pieces f.sent in
    (
      frames,
      e,
      omega (arith, size, f.some_piece),
      omega (arith, size, f.few_pieces),
      AllSent-fits assoc_id packet_id (length f.pieces) max_frame_len (unscoped target) 0 frames
          f.pieces f.sent,
    )

-- The frames that a packet of at most 65535 bytes was split into reach a client in any order, each once
-- and all within 30 seconds of the first to arrive, with other commands between them that are no
-- fragments of this packet. The client has a session for the association, whose channel takes packets,
-- no buffer for the packet, and fewer than 64 buffers when the first frame arrives. Then every frame but
-- the last is accepted without a packet, and the last one to arrive hands the session the packet with
-- its whole payload and its target, an IPv6 one with flow information and scope 0, which are not sent.
pub deliver-encode_packet_fragments :
    (sessions : List (ℕ × Bool)) (assoc_id packet_id max_frame_len : ℕ) (target : ProxyTarget)
    (payload : Text) (frames : List Text) (now i : ℕ) (pending : Pending)
    (arrivals : List (ℕ × Arrival))
    → assoc_id < 256 ^ 2
    → packet_id < 256 ^ 2
    → IsTarget target
    → 270 ≤ max_frame_len
    → length payload ≤ 65535
    → encode_packet_fragments assoc_id packet_id target payload max_frame_len ≡ ok frames
    → lookup assoc_id sessions ≡ some true
    → lookup (assoc_id, packet_id) pending ≡ none
    → length pending < max_pending_packets
    → IsOrder (length frames) (i ∷ order_of arrivals)
    → All (Allowed assoc_id packet_id now) arrivals
    → deliver sessions frames pending ((now, own i) ∷ arrivals)
      ≡ one_answer
          (record { assoc_id = assoc_id; target = unscoped target; payload = payload })
          (i ∷ order_of arrivals)
deliver-encode_packet_fragments sessions assoc_id packet_id max_frame_len target payload frames now
      i pending arrivals assoc_small packet_small valid roomy small encoded listens absent room
      order allowed =
    let (frames', e, f) =
      encode_packet_fragments-InFrames assoc_id packet_id max_frame_len target payload assoc_small
        packet_small valid roomy small in
    let same : frames' ≡ frames = ok_injective (sym e ∙ encoded) in
    let sent =
      subst
        (λ fs.
          AllSent assoc_id packet_id (length f.pieces) max_frame_len (unscoped target) 0 fs
            f.pieces)
        same f.sent in
    let size =
      AllSent-length assoc_id packet_id (length f.pieces) max_frame_len (unscoped target) 0 frames
        f.pieces sent in
    let parsed =
      AllSent-index assoc_id packet_id (length f.pieces) max_frame_len (unscoped target) frames
        f.pieces in
    let complete = subst (λ n. IsOrder n (i ∷ order_of arrivals)) size order in
    let fits : length (joined f.pieces) ≤ 65535 = rw (f.whole) small in
    subst
      (λ s.
        deliver sessions frames pending ((now, own i) ∷ arrivals)
        ≡ one_answer (record { assoc_id = assoc_id; target = unscoped target; payload = s })
            (i ∷ order_of arrivals))
      f.whole
      (elim (Bool-cases (ltb (length f.pieces) 2)) [
        | inl few ↦
            let one : length f.pieces ≡ 1 =
              omega (arith, f.some_piece, ltb→lt (length f.pieces) 2 few) in
            deliver_single sessions assoc_id packet_id max_frame_len (unscoped target) f.pieces
              frames now i pending arrivals (λ k lt. parsed k sent lt) one fits listens
              (subst (λ n. IsOrder n (i ∷ order_of arrivals)) one complete)
        | inr several ↦
            deliver_several sessions assoc_id packet_id max_frame_len (unscoped target) f.pieces
              frames now i pending arrivals (λ k lt. parsed k sent lt) (ground (arith, several))
              fits listens absent room complete allowed
      ])
