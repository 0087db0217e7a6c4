-- ===== src/Protocol/Stream.antt =====
-- `read_exact` on a stream of which the given bytes are still to come before its end.
use aerion.Base.{
  ℕ, ◌≡◌, ◌++◌, arith, leb, if◌then◌else◌, length, take, drop, take-append_of_length,
  drop-append_of_length, take-append-drop, length-append, length-take, Result, ok, err,
}
use aerion.Base.Text.{Text}

pub data WireError : Type 0 where
  unexpected_eof frame_too_large authentication_failed : WireError
  target_empty target_too_short unsupported_address_type invalid_utf8 domain_too_long : WireError
  empty_packet trailing_bytes incomplete payload_too_large bad_reserved fragmented : WireError

unfoldable pub read_exact : ℕ → Text → Result WireError (Text × Text)
read_exact n s = if leb n (length s) then ok (take n s, drop n s) else err unexpected_eof

-- The bytes that were written come out, and the rest stays.
pub read_exact-append :
    (n : ℕ) (xs rest : Text) → length xs ≡ n → read_exact n (xs ++ rest) ≡ ok (xs, rest)
unfolding read_exact
read_exact-append n xs rest h = ground (
  arith,
  length-append xs rest,
  take-append_of_length n xs rest h,
  drop-append_of_length n xs rest h,
)

-- What a successful read took from the stream.
pub read_exact-inverse :
    (n : ℕ) (s xs rest : Text) → read_exact n s ≡ ok (xs, rest) → (s ≡ xs ++ rest) × (length xs ≡ n)
unfolding read_exact
read_exact-inverse n s xs rest h = ground (arith, take-append-drop n s, length-take n s)
