-- ===== src/Vision/Delivery.antt =====
-- Reading a padded stream to its end, whatever the sizes of the chunks and of the buffer.
use aerion.Base.{
  min, ℕ, zero, suc, ◌≤◌, ◌<◌, ◌≡◌, refl, sym, ◌∙◌, ap, subst, ◌⊎◌, inl, inr, Bool, true, false,
  Option, none, some, [], ◌∷◌, ◌++◌, arith, append_assoc, is_empty, is_some, length, take, drop,
  length-take, take-append-drop, Result, ok, Bool-cases,
}
use aerion.Base.Text.{Text}
use aerion.Vision.{
  VisionReader, VisionControl, ReadState, initial, header, raw, content, padding, Turn, again, done,
  failed, VisionError, decode_turn, decode_loop, decode_available, turns, observed, poll_decoded,
}
use aerion.Vision.Reader.{is_raw}
use aerion.Vision.Blocks.{content_of, Follows, IsGoodTurn, weight, rank}
use aerion.Vision.Turns.{decode_turn-IsGoodTurn}

pub Turn-cases :
    (t : Turn)
    → ((next : VisionReader) × (t ≡ again next))
      ⊎ (((next : VisionReader) × (t ≡ done next)) ⊎ ((e : VisionError) × (t ≡ failed e)))
Turn-cases (again next) = inl (next, refl)
Turn-cases (done next) = inr (inl (next, refl))
Turn-cases (failed e) = inr (inr (e, refl))

-- The reader after decoding: at the end of the input, nothing decoded means that nothing is left.
pub record Decoded (eof : Bool) (s total : Text) (result : Option (Result VisionError VisionReader))
    : Type 0 where
  pub next : VisionReader
  pub decodes : result ≡ some (ok next)
  pub follows : Follows next s total
  pub ends : eof ≡ true → next.decoded ≡ [] → total ≡ []

decode_loop-Decoded :
    (fuel : ℕ) (eof : Bool) (r : VisionReader) (s total : Text)
    → (eof ≡ true → s ≡ [])
    → Follows r s total
    → weight r < fuel
    → Decoded eof s total (decode_loop fuel eof r)
unfolding decode_loop
decode_loop-Decoded zero eof r s total closed f h = absurd (omega arith)
decode_loop-Decoded (suc fuel) eof r s total closed f h =
    let good = decode_turn-IsGoodTurn eof r s total closed f in
    elim (Turn-cases (decode_turn eof r)) [
      | inl (next, e) ↦
          let g = subst (IsGoodTurn eof r s total) e good in
          rw (e, decode_loop)
            (decode_loop-Decoded fuel eof next s total closed g.0 (omega (arith, g.1, h)))
      | inr (inl (next, e)) ↦
          let g = subst (IsGoodTurn eof r s total) e good in
          rw (e, decode_loop) (record { next = next; decodes = refl; follows = g.0; ends = g.1 })
      | inr (inr (x, e)) ↦ absurd (subst (IsGoodTurn eof r s total) e good)
    ]

pub rank-le : (s : ReadState) → rank s ≤ 2
rank-le initial = omega arith
rank-le header = omega arith
rank-le raw = omega arith
rank-le (content c n m) = omega arith
rank-le (padding c n) = omega arith

-- The fuel of `decode_available` is enough.
pub decode_available-Decoded :
    (eof : Bool) (r : VisionReader) (s total : Text)
    → (eof ≡ true → s ≡ [])
    → Follows r s total
    → Decoded eof s total (decode_available eof r)
unfolding decode_available
decode_available-Decoded eof r s total closed f =
    decode_loop-Decoded (turns r) eof r s total closed f (omega (arith, rank-le r.state))

is_some-observed :
    (taken : Text) (c : Option VisionControl) → is_some (observed taken c) ≡ is_some c
is_some-observed taken none = refl
is_some-observed taken (some c) = refl

pub empty_is_nil : (xs : Text) → is_empty xs ≡ true → xs ≡ []
empty_is_nil [] h = refl
empty_is_nil (x ∷ xs) h = cc

pub is_raw-raw : (s : ReadState) → is_raw s ≡ true → s ≡ raw
is_raw-raw initial h = cc
is_raw-raw header h = cc
is_raw-raw raw h = refl
is_raw-raw (content c n m) h = cc
is_raw-raw (padding c n) h = cc

-- Bytes of the content were handed on, and the reader is on its way with the rest.
pub record Progress (bytes : Text) (r : VisionReader) (s total : Text) : Type 0 where
  pub some_bytes : 0 < length bytes
  pub rest : Text
  pub whole : total ≡ bytes ++ rest
  pub follows : Follows r s rest

pub poll_decoded-Progress :
    (room : ℕ) (r : VisionReader) (s total : Text)
    → 0 < room
    → Follows r s total
    → ((poll_decoded room r ≡ (none, r)) × (r.decoded ≡ []))
      ⊎ ((bytes : Text) × (next : VisionReader) × (poll_decoded room r ≡ (some bytes, next))
          × Progress bytes next s total)
unfolding poll_decoded
poll_decoded-Progress room r s total h f = elim (Bool-cases (is_empty r.decoded)) [
  | inl e ↦ inl ((rw e refl), empty_is_nil r.decoded e)
  | inr e ↦
      let n = min (length r.decoded) room in
      let taken = take n r.decoded in
      let size = length-take n r.decoded (ground arith) in
      inr (
        taken,
        record r { decoded = drop n r.decoded; control = observed taken r.control },
        (rw e refl),
        record {
          some_bytes = ground (arith, h, filled r.decoded e, size);
          rest = drop n r.decoded ++ content_of f.position;
          whole =
              sym f.whole
              ∙ ap (λ d. d ++ content_of f.position) (sym (take-append-drop n r.decoded))
              ∙ append_assoc taken (drop n r.decoded) (content_of f.position);
          follows = record {
            position = f.position;
            valid = f.valid;
            user_size = f.user_size;
            controlled = is_some-observed taken r.control ∙ f.controlled;
            state = f.state;
            bytes = f.bytes;
            whole = refl;
          };
        },
      )
]
  where
    filled : (xs : Text) → is_empty xs ≡ false → 0 < length xs
    filled [] h = cc
    filled (x ∷ xs) h = omega arith
