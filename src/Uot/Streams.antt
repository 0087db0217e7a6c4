-- ===== src/Uot/Streams.antt =====
-- Packets taken from the bytes of a stream that have arrived so far.
use aerion.Base.{
  ℕ, zero, suc, ◌+◌, ◌≤◌, ◌<◌, ◌≡◌, refl, sym, ap, ◌∙◌, true, false, Option, none, some, List, [],
  ◌∷◌, ◌++◌, append-nil, arith, ltb, length, take, drop, length-append, length-drop, Result, ok,
  err, take-append_of_length, drop-append_of_length, ◌⊎◌, inl, inr, Bool-cases,
}
use aerion.Base.Text.{Text}
use aerion.Protocol.Stream.{WireError}
use aerion.Protocol.Target.{ProxyTarget, unscoped}
use aerion.Uot.{UotRequest, payload_len_offset, len_at, associate_packet_len, take_stream_packet}
use aerion.Uot.Packets.{IsPacket}

take-append_lt {ℓ} :
    {A : Type ℓ} (n : ℕ) (xs ys : List A) → n ≤ length xs → take n (xs ++ ys) ≡ take n xs
take-append_lt zero xs ys h = refl
take-append_lt (suc n) [] ys h = absurd (omega arith)
take-append_lt (suc n) (x ∷ xs) ys h = ap (◌∷◌ x) (take-append_lt n xs ys (omega arith))

drop-append_lt {ℓ} :
    {A : Type ℓ} (n : ℕ) (xs ys : List A) → n ≤ length xs → drop n (xs ++ ys) ≡ drop n xs ++ ys
drop-append_lt zero xs ys h = refl
drop-append_lt (suc n) [] ys h = absurd (omega arith)
drop-append_lt (suc n) (x ∷ xs) ys h = drop-append_lt n xs ys (omega arith)

-- More bytes do not change an answer other than "not yet".
offset_stable :
    (p q : Text)
    → (payload_len_offset p ≡ ok none) ⊎ (payload_len_offset (p ++ q) ≡ payload_len_offset p)
unfolding payload_len_offset
offset_stable [] q = inl refl
offset_stable (tag ∷ []) q = ground arith
offset_stable (tag ∷ n ∷ rest) q = ground (arith, length-append rest q)

len_at_stable :
    (p q : Text) (k : ℕ)
    → (len_at p (some k) ≡ ok none) ⊎ (len_at (p ++ q) (some k) ≡ len_at p (some k))
len_at_stable p q k = elim (Bool-cases (ltb (length p) (k + 2))) [
  | inl short ↦ inl (rw short refl)
  | inr long ↦
      let enough : k + 2 ≤ length p = ground (arith, long) in
      let more : ltb (length (p ++ q)) (k + 2) ≡ false =
        ground (arith, length-append p q, enough) in
      let tail : take 2 (drop k (p ++ q)) ≡ take 2 (drop k p) =
        ap (take 2) (drop-append_lt k p q (omega (arith, enough)))
        ∙ take-append_lt 2 (drop k p) q (omega (arith, length-drop k p, enough)) in
      inr (rw (long, more, tail) refl)
]

stable_from :
    (p q : Text) (r : Result WireError (Option ℕ))
    → payload_len_offset p ≡ r
    → (associate_packet_len p ≡ ok none) ⊎ (associate_packet_len (p ++ q) ≡ associate_packet_len p)
unfolding associate_packet_len
stable_from p q (err x) e = elim (offset_stable p q) [
  | inl wait ↦ inl (rw wait refl)
  | inr same ↦ inr (rw (same, e) refl)
]
stable_from p q (ok none) e = inl (rw e refl)
stable_from p q (ok (some k)) e = elim (offset_stable p q) [
  | inl wait ↦ inl (rw wait refl)
  | inr same ↦ rw (same, e) (len_at_stable p q k)
]

associate_packet_len_stable :
    (p q : Text)
    → (associate_packet_len p ≡ ok none) ⊎ (associate_packet_len (p ++ q) ≡ associate_packet_len p)
associate_packet_len_stable p q = stable_from p q (payload_len_offset p) refl

module _ (request : UotRequest) (associate : request.is_connect ≡ false) where
  -- The stream reader on the bytes of a packet and what follows it.
  pub take_whole :
      (t : ProxyTarget) (payload packet rest : Text)
      → IsPacket t payload packet
      → take_stream_packet request (packet ++ rest) ≡ ok (some (unscoped t, payload, false), rest)
  unfolding take_stream_packet
  take_whole t payload packet rest h =
      let enough : ltb (length (packet ++ rest)) (length packet) ≡ false =
        ground (arith, length-append packet rest) in
      rw
        (
          associate,
          h.measured rest,
          enough,
          take-append_of_length (length packet) packet rest refl,
          drop-append_of_length (length packet) packet rest refl,
          h.decoded,
        )
        refl

  -- On the first bytes of a packet the reader waits and takes nothing.
  pub take_part :
      (t : ProxyTarget) (payload packet p q : Text)
      → IsPacket t payload packet
      → packet ≡ p ++ q
      → length p < length packet
      → take_stream_packet request p ≡ ok (none, p)
  unfolding take_stream_packet
  take_part t payload packet p q h e short = elim (associate_packet_len_stable p q) [
    | inl wait ↦ rw (associate, wait) refl
    | inr same ↦
        let whole : associate_packet_len p ≡ ok (some (length packet)) =
          sym same ∙ ap associate_packet_len (sym e ∙ sym (append-nil packet)) ∙ h.measured [] in
        let less : ltb (length p) (length packet) ≡ true = ground (arith, short) in
        rw (associate, whole, less) refl
  ]
