-- ===== src/Vision/Runs.antt =====
-- Two payloads in three chunks, read four bytes at a time.
use aerion.Base.{
  ◌≡◌, refl, false, none, some, err, [], ◌∷◌, ◌++◌, arith, take, drop, replicate, length-replicate,
  ok, true, Result,
}
use aerion.Base.Text.{Text, ascii}
use aerion.Base.Bytes.{be_bytes}
use aerion.Vision.{random_failed, VisionControl, VisionError, VisionReader, decode_available}
use aerion.Vision.Reader.{read_to_end, new_reader}
use aerion.Vision.Probe.{TlsProbe, observe}
use aerion.Vision.Encoder.{
  Random, new_encoder, block_bytes, encode, encode_vision_frame, vision_padding_len, padding_for,
  looks_like_tls13_application_data,
}
use aerion.Vision.Termination.{decode_available_ends}
use aerion.Vision.Streams.{encode_all, IsWorking, read_to_end-encode_all}

abbrev someone : Text
someone = replicate 16 7

abbrev no_probe : TlsProbe
no_probe = record { buffer = []; handshake = []; stopped = false }

abbrev new_control : VisionControl
new_control = record {
  read_direct = false;
  write_direct = false;
  filter = record { incoming = no_probe; outgoing = no_probe; tls = false; direct = false };
}

abbrev zeros : Random
zeros = record { number = some 0; fill = λ n. some (replicate n 0) }

zeros-IsWorking : IsWorking zeros
zeros-IsWorking = record {
  given = (0, refl);
  fills = λ n. (replicate n 0, refl, length-replicate n 0);
}

-- Without random bytes nothing is written.
no_random :
    (encode (record zeros { fill = λ n. none }) (new_encoder someone new_control) (ascii "hi")).1
    ≡ err random_failed
unfolding encode encode_vision_frame vision_padding_len padding_for observe
    looks_like_tls13_application_data
no_random = refl

abbrev hi_there : Text
hi_there =
    someone
    ++ (block_bytes 0 (ascii "hi") (replicate 898 0)
        ++ block_bytes 0 (ascii "there") (replicate 895 0))

encoded_test :
    encode_all (new_encoder someone new_control) ((zeros, ascii "hi") ∷ (zeros, ascii "there") ∷ [])
    ≡ ok hi_there
unfolding encode_all encode encode_vision_frame vision_padding_len padding_for
    looks_like_tls13_application_data observe be_bytes
encoded_test = refl

read_to_end-encode_all_example :
    read_to_end 8 4
      (new_reader someone (some new_control))
      (take 10 hi_there ∷ take 30 (drop 10 hi_there) ∷ drop 40 hi_there ∷ [])
    ≡ some (ok (ascii "hithere"))
unfolding be_bytes
read_to_end-encode_all_example =
    read_to_end-encode_all someone new_control new_control (zeros, ascii "hi")
      ((zeros, ascii "there") ∷ []) hi_there
      (take 10 hi_there ∷ take 30 (drop 10 hi_there) ∷ drop 40 hi_there ∷ []) 4 8 refl
      ((omega arith, zeros-IsWorking), ((omega arith, zeros-IsWorking), tt)) encoded_test refl
      (omega arith, (omega arith, (omega arith, tt))) (omega arith) (omega arith)

decode_available_ends_example :
    (result : Result VisionError VisionReader) × (decode_available true
        (record (new_reader someone (some new_control)) { encoded = take 40 hi_there })
      ≡ some result)
decode_available_ends_example =
    decode_available_ends true
      (record (new_reader someone (some new_control)) { encoded = take 40 hi_there }) (omega arith)
