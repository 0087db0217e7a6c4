-- ===== src/Protocol/Runs.antt =====
-- The wire formats at concrete inputs.
use aerion.Base.{ℕ, ◌+◌, ◌≡◌, refl, false, List, [], ◌∷◌, ◌++◌, arith, length, take, replicate, ok}
use aerion.Base.Text.{Text, ascii}
use aerion.Base.Bytes.{be_bytes}
use aerion.Net.{v4, v6, new_socket_addr, to_ipv4_mapped}
use aerion.Padding.{PaddingScheme, range, checkpoint}
use aerion.Protocol.Frame.{Frame, IsFrame, encode_frame, read_frame, read_frame-encode_frame}
use aerion.Protocol.Frame.Inverse.{read_frame-inverse}
use aerion.Protocol.Frame.Frames.{read_frames, kept}
use aerion.Protocol.Target.{
  ProxyTarget, ip, canonical, canonicalize_socket_addr, mapped_v4, unscoped, encode_target,
  decode_target, decode_target-encode_target,
}
use aerion.Protocol.Preface.{
  write_auth_preface, read_auth_preface_user, read_auth_preface_user-write_auth_preface,
}
use aerion.Protocol.Padded.{PaddedFrameWriter, new_writer, write_padded_frames}
use aerion.Protocol.Padded.Delivery.{write_padded_frames-delivers}

abbrev push_hi : Frame
push_hi = record { cmd = 2; stream_id = 70000; payload = ascii "hi" }

push_hi-IsFrame : IsFrame push_hi
push_hi-IsFrame = record { cmd = omega arith; stream_id = omega arith; payload = omega arith }

read_frame-encode_frame_example :
    read_frame (2 ∷ 0 ∷ 1 ∷ 0x11 ∷ 0x70 ∷ 0 ∷ 2 ∷ 104 ∷ 105 ∷ 9 ∷ []) ≡ ok (push_hi, 9 ∷ [])
unfolding encode_frame be_bytes
read_frame-encode_frame_example = read_frame-encode_frame push_hi (9 ∷ []) push_hi-IsFrame

abbrev hi_bytes : Text
hi_bytes = 2 ∷ 0 ∷ 1 ∷ 0x11 ∷ 0x70 ∷ 0 ∷ 2 ∷ 104 ∷ 105 ∷ 9 ∷ []

read_frame-inverse_example :
    (hi_bytes ≡ encode_frame 2 70000 (ascii "hi") ++ (9 ∷ [])) × IsFrame push_hi
read_frame-inverse_example =
    read_frame-inverse hi_bytes push_hi (9 ∷ []) (ground arith) read_frame-encode_frame_example

abbrev mapped_target : ProxyTarget
mapped_target = ip (new_socket_addr (v6 0xffff_c0a8_0001) 443)

decode_target-encode_target_example :
    (bytes : Text) × (encode_target mapped_target ≡ ok bytes)
    × (decode_target (bytes ++ (7 ∷ [])) ≡ ok (ip (new_socket_addr (v4 0xc0a8_0001) 443), 7 ∷ []))
unfolding canonical canonicalize_socket_addr mapped_v4 unscoped to_ipv4_mapped
decode_target-encode_target_example =
    decode_target-encode_target mapped_target (7 ∷ []) (omega arith, omega arith)

abbrev short_scheme : PaddingScheme
short_scheme = record {
  raw = [];
  md5 = [];
  stop = 3;
  rules =
      (1, range 4 4 ∷ checkpoint ∷ range 20 30 ∷ checkpoint ∷ range 5 5 ∷ [])
      ∷ (2, range 40 40 ∷ range 3 3 ∷ [])
      ∷ [];
}

abbrev random : ℕ → ℕ → ℕ
random packet i = packet + i

abbrev three_frames : List Frame
three_frames = push_hi ∷ push_hi ∷ record push_hi { cmd = 3; payload = [] } ∷ []

-- The first frame is cut after four bytes and followed by a waste frame, the second is filled up.
padded_run :
    write_padded_frames random (new_writer short_scheme false) three_frames
    ≡ ok (
      record {
        padding = short_scheme;
        packet_counter = 3;
        send_padding = false;
        is_write_vectored = false;
      },
      encode_frame 2 70000 (ascii "hi")
          ++ (encode_frame 0 0 (replicate 9 0)
              ++ (encode_frame 2 70000 (ascii "hi")
                  ++ (encode_frame 0 0 (replicate 24 0)
                      ++ (encode_frame 0 0 (replicate 3 0) ++ encode_frame 3 70000 [])))),
    )
unfolding write_padded_frames encode_frame be_bytes
padded_run = refl

write_padded_frames-delivers_example :
    (w' : PaddedFrameWriter) × (out : Text) × (sent : List Frame) × (write_padded_frames random
        (new_writer short_scheme false)
        three_frames
      ≡ ok (w', out))
    × (read_frames (length sent) out ≡ ok sent)
    × (kept sent ≡ three_frames)
write_padded_frames-delivers_example =
    write_padded_frames-delivers random (new_writer short_scheme false) three_frames
      (ground arith, ground arith)
      (
        (push_hi-IsFrame, λ e. omega (arith, e)),
        (
          (push_hi-IsFrame, λ e. omega (arith, e)),
          (
            (
              record { cmd = omega arith; stream_id = omega arith; payload = omega arith },
              λ e. omega (arith, e),
            ),
            tt,
          ),
        ),
      )

-- A stand-in for SHA-256 with 32 bytes.
abbrev padded_hash : Text → Text
padded_hash text = take 32 (text ++ replicate 32 0)

preface_written :
    write_auth_preface padded_hash short_scheme (λ i. i) (ascii "ann")
    ≡ ok (padded_hash (ascii "ann") ++ (0 ∷ 0 ∷ []))
unfolding write_auth_preface be_bytes
preface_written = refl

read_auth_preface_user-write_auth_preface_example :
    read_auth_preface_user padded_hash
      ((padded_hash (ascii "ann") ++ (0 ∷ 0 ∷ [])) ++ (9 ∷ []))
      (ascii "bob" ∷ ascii "ann" ∷ ascii "eve" ∷ [])
    ≡ ok (ascii "ann", 9 ∷ [])
read_auth_preface_user-write_auth_preface_example =
    read_auth_preface_user-write_auth_preface padded_hash short_scheme (λ i. i) (ascii "ann")
      (padded_hash (ascii "ann") ++ (0 ∷ 0 ∷ [])) (9 ∷ []) (ascii "bob" ∷ []) (ascii "eve" ∷ [])
      refl preface_written (λ e. ground (arith, e), tt)
