-- ===== src/Vision/Termination.antt =====
-- The loop of `decode_available` ends on every input.
use aerion.Base.{
  min, ℕ, zero, suc, ◌+◌, ◌-◌, ◌<◌, ◌≡◌, not, ◌&&◌, ◌++◌, if◌then◌else◌, is_empty, take, get_or,
  bytes_beq, ok, err, refl, subst, inl, inr, Bool, true, false, Option, none, some, arith, ltb,
  ◌==◌, length, drop, length-drop, Result,
}
use aerion.Base.Bytes.{from_be}
use aerion.Vision.{
  to_raw, truncated_header, truncated_content, truncated_padding, invalid_command, VisionReader,
  ReadState, initial, header, raw, content, padding, Turn, again, done, failed, VisionError,
  turn_in, turn_initial, turn_header, turn_content, turn_padding, turn_end, turn_direct,
  VisionControl, decode_turn, decode_loop, decode_available, turns,
}
use aerion.Vision.Blocks.{weight, rank}
use aerion.Vision.Delivery.{Turn-cases, rank-le}

-- A turn that goes on has less to do, and is for the same user.
abbrev IsLess : ℕ → ℕ → Turn → Type 0
IsLess n size (again next) = (weight next < n) × (length next.user ≡ size)
IsLess n size (done next) = Unit {0}
IsLess n size (failed e) = Unit {0}

if-IsLess :
    (n size : ℕ) (b : Bool) (x y : Turn)
    → (b ≡ true → IsLess n size x)
    → (b ≡ false → IsLess n size y)
    → IsLess n size (if b then x else y)
if-IsLess n size true x y hx hy = hx refl
if-IsLess n size false x y hx hy = hy refl

stops : (n size : ℕ) (b : Bool) (x y : VisionReader) → IsLess n size (if b then done x else done y)
stops n size b x y = if-IsLess n size b (done x) (done y) (λ e. tt) (λ e. tt)

fails :
    (n size : ℕ) (b : Bool) (e : VisionError) (y : VisionReader)
    → IsLess n size (if b then failed e else done y)
fails n size b e y = if-IsLess n size b (failed e) (done y) (λ h. tt) (λ h. tt)

initial-IsLess :
    (eof : Bool) (r : VisionReader)
    → 0 < length r.user
    → IsLess (length r.encoded) (length r.user) (turn_initial eof r)
initial-IsLess eof r h =
    let n = length r.encoded in
    let size = length r.user in
    let next : VisionReader = record r { encoded = drop size r.encoded; state = header } in
    let rest = if ltb n (size + 5) then (if eof then done (to_raw r) else done r) else again next in
    let k = min n size in
    if-IsLess n size (not (bytes_beq (take k r.encoded) (take k r.user))) (done (to_raw r)) rest
      (λ e. tt)
      (λ e.
        if-IsLess n size (ltb n (size + 5)) (if eof then done (to_raw r) else done r) (again next)
          (λ e'. stops n size eof (to_raw r) r)
          (λ e'. (ground (arith, e', h, length-drop size r.encoded), refl)))

header-IsLess :
    (eof : Bool) (r : VisionReader) → IsLess (length r.encoded) (length r.user) (turn_header eof r)
header-IsLess eof r =
    let n = length r.encoded in
    let size = length r.user in
    let next : VisionReader = record r {
      encoded = drop 5 r.encoded;
      state =
          content (get_or r.encoded 0 0) (from_be (take 2 (drop 1 r.encoded)))
            (from_be (take 2 (drop 3 r.encoded)));
    } in
    let rest = if ltb 2 (get_or r.encoded 0 0) then failed invalid_command else again next in
    let short = if eof && not (is_empty r.encoded) then failed truncated_header else done r in
    if-IsLess n size (ltb n 5) short rest
      (λ e. fails n size (eof && not (is_empty r.encoded)) truncated_header r)
      (λ e.
        if-IsLess n size (ltb 2 (get_or r.encoded 0 0)) (failed invalid_command) (again next)
          (λ e'. tt) (λ e'. (ground (arith, e, length-drop 5 r.encoded), refl)))

content-IsLess :
    (eof : Bool) (r : VisionReader) (command n m : ℕ)
    → IsLess (length r.encoded + 2) (length r.user) (turn_content eof r command n m)
content-IsLess eof r command n m =
    let size = length r.user in
    let bound = length r.encoded + 2 in
    let k = min n (length r.encoded) in
    let decoded = r.decoded ++ take k r.encoded in
    let next : VisionReader = record r {
      decoded = decoded;
      encoded = drop k r.encoded;
      state = content command (n - k) m;
    } in
    let pad : VisionReader = record r { state = padding command m } in
    let rest = if is_empty decoded then again next else done next in
    let wait = if eof then failed truncated_content else done r in
    if-IsLess bound size (n == 0) (again pad) (if k == 0 then wait else rest)
      (λ e. (omega arith, refl))
      (λ e.
        if-IsLess bound size (k == 0) wait rest (λ e'. fails bound size eof truncated_content r)
          (λ e'.
            if-IsLess bound size (is_empty decoded) (again next) (done next)
              (λ e''. (ground (arith, e', length-drop k r.encoded), refl)) (λ e''. tt)))

direct-IsLess :
    (n size : ℕ) (r : VisionReader) (c : Option VisionControl) → IsLess n size (turn_direct r c)
direct-IsLess n size r none = tt
direct-IsLess n size r (some c) = tt

end-IsLess : (n size : ℕ) (r : VisionReader) (command : ℕ) → IsLess n size (turn_end r command)
end-IsLess n size r command =
    let over = if command == 1 then done (to_raw r) else failed invalid_command in
    if-IsLess n size (command == 2) (turn_direct r r.control) over
      (λ e. direct-IsLess n size r r.control)
      (λ e.
        if-IsLess n size (command == 1) (done (to_raw r)) (failed invalid_command) (λ h. tt)
          (λ h. tt))

padding-IsLess :
    (eof : Bool) (r : VisionReader) (command n : ℕ)
    → IsLess (length r.encoded + 1) (length r.user) (turn_padding eof r command n)
padding-IsLess eof r command n =
    let size = length r.user in
    let bound = length r.encoded + 1 in
    let k = min n (length r.encoded) in
    let next : VisionReader = record r { encoded = drop k r.encoded } in
    let more : VisionReader = record next { state = padding command (n - k) } in
    let head : VisionReader = record next { state = header } in
    let wait = if eof then failed truncated_padding else done r in
    let after = if command == 0 then again head else turn_end next command in
    let rest = if ltb 0 (n - k) then done more else after in
    if-IsLess bound size (k == 0 && ltb 0 n) wait rest
      (λ e. fails bound size eof truncated_padding r)
      (λ e.
        if-IsLess bound size (ltb 0 (n - k)) (done more) after (λ e'. tt)
          (λ e'.
            if-IsLess bound size (command == 0) (again head) (turn_end next command)
              (λ e''. (omega (arith, length-drop k r.encoded), refl))
              (λ e''. end-IsLess bound size next command)))

turn-IsLess :
    (eof : Bool) (r : VisionReader) (s : ReadState)
    → 0 < length r.user
    → IsLess (length r.encoded + rank s) (length r.user) (turn_in eof r s)
turn-IsLess eof r initial h =
    subst (λ n. IsLess n (length r.user) (turn_initial eof r)) (omega arith)
      (initial-IsLess eof r h)
turn-IsLess eof r header h =
    subst (λ n. IsLess n (length r.user) (turn_header eof r)) (omega arith) (header-IsLess eof r)
turn-IsLess eof r (content command n m) h = content-IsLess eof r command n m
turn-IsLess eof r (padding command n) h = padding-IsLess eof r command n
turn-IsLess eof r raw h = tt

decode_loop_ends :
    (fuel : ℕ) (eof : Bool) (r : VisionReader)
    → 0 < length r.user
    → weight r < fuel
    → (result : Result VisionError VisionReader) × (decode_loop fuel eof r ≡ some result)
unfolding decode_loop decode_turn
decode_loop_ends zero eof r h enough = absurd (omega arith)
decode_loop_ends (suc fuel) eof r h enough =
    let less = turn-IsLess eof r r.state h in
    elim (Turn-cases (turn_in eof r r.state)) [
      | inl (next, e) ↦
          let g = subst (IsLess (length r.encoded + rank r.state) (length r.user)) e less in
          let (result, ends) =
            decode_loop_ends fuel eof next (omega (arith, g.1, h)) (omega (arith, g.0, enough)) in
          (result, rw (e, decode_loop) ends)
      | inr (inl (next, e)) ↦ (ok next, rw (e, decode_loop) refl)
      | inr (inr (x, e)) ↦ (err x, rw (e, decode_loop) refl)
    ]

-- Decoding what is available ends for every reader of a user that is not empty, in every state, with any
-- bytes pending and at the end of the input or before it: `turns` bounds the turns of the loop.
pub decode_available_ends :
    (eof : Bool) (r : VisionReader)
    → 0 < length r.user
    → (result : Result VisionError VisionReader) × (decode_available eof r ≡ some result)
unfolding decode_available
decode_available_ends eof r h = decode_loop_ends (turns r) eof r h (omega (arith, rank-le r.state))
