-- ===== src/Protocol/Padded/Records.antt =====
-- What one packet becomes: its bytes and then waste frames that the receiver can read.
use aerion.Base.{
  ℕ, ◌+◌, ◌-◌, ◌≤◌, ◌≡◌, refl, sym, ap, ◌∙◌, ◌⊎◌, inl, inr, false, List, [], ◌∷◌, ◌++◌,
  append_assoc, append-nil, arith, All, ltb, ◌==◌, length, take, drop, replicate, length-replicate,
  take-append-drop, Bool-cases,
}
use aerion.Base.Text.{Text}
use aerion.Padding.{
  PaddingRule, range, checkpoint, PaddingScheme, padding_checkpoint, record_payload_sizes,
  find_rules,
}
use aerion.Padding.Scheme.{IsScheme, IsDrawn, record_payload_sizes-IsDrawn, find_rules-All}
use aerion.Protocol.Frame.{Frame, IsFrame, cmd_waste}
use aerion.Protocol.Frame.Frames.{encode_frames, kept}
use aerion.Protocol.Padded.{
  PaddedFrameWriter, waste, last_record, write_records, write_packet, saturating_succ,
}

-- What was written is the payload and then waste frames.
pub record IsFilled (payload out : Text) : Type 0 where
  pub wastes : List Frame
  pub frames : All IsFrame wastes
  pub none_kept : kept wastes ≡ []
  pub bytes : out ≡ payload ++ encode_frames wastes

IsSize : ℕ → Type 0
IsSize size = (size ≡ padding_checkpoint) ⊎ (size ≤ 65535)

waste_frame : ℕ → Frame
waste_frame size = record { cmd = cmd_waste; stream_id = 0; payload = replicate size 0 }

pub nothing_added : (payload : Text) → IsFilled payload payload
unfolding encode_frames kept
nothing_added payload = record {
  wastes = [];
  frames = tt;
  none_kept = refl;
  bytes = sym (append-nil payload);
}

-- A waste frame between a payload and the waste frames that follow it.
waste_added :
    (size : ℕ) (payload out : Text)
    → size ≤ 65535
    → IsFilled [] out
    → IsFilled payload (payload ++ (waste size ++ out))
unfolding encode_frames kept waste_frame
waste_added size payload out h filled = record {
  wastes = waste_frame size ∷ filled.wastes;
  frames = (
    record {
      cmd = omega arith;
      stream_id = omega arith;
      payload = omega (arith, length-replicate {A = ℕ} size 0);
    },
    filled.frames,
  );
  none_kept = filled.none_kept;
  bytes = ap (λ xs. payload ++ (waste size ++ xs)) filled.bytes;
}

-- The waste frames that follow once the payload is written.
after_payload : (payload out : Text) → IsFilled [] out → IsFilled payload (payload ++ out)
after_payload payload out filled = record {
  wastes = filled.wastes;
  frames = filled.frames;
  none_kept = filled.none_kept;
  bytes = ap (λ xs. payload ++ xs) filled.bytes;
}

split_payload :
    (n : ℕ) (payload out : Text)
    → IsFilled (drop n payload) out
    → IsFilled payload (take n payload ++ out)
split_payload n payload out filled = record {
  wastes = filled.wastes;
  frames = filled.frames;
  none_kept = filled.none_kept;
  bytes =
      ap (λ xs. take n payload ++ xs) filled.bytes
      ∙ sym (append_assoc (take n payload) (drop n payload) (encode_frames filled.wastes))
      ∙ ap (λ xs. xs ++ encode_frames filled.wastes) (take-append-drop n payload);
}

last_record-IsFilled :
    (size : ℕ) (payload out : Text)
    → size ≤ 65535
    → IsFilled [] out
    → IsFilled payload (last_record size payload ++ out)
unfolding last_record
last_record-IsFilled size payload out h filled = elim (Bool-cases (ltb (length payload + 7) size)) [
  | inl room ↦
      rw (room, append_assoc payload (waste (size - length payload - 7)) out)
        (waste_added (size - length payload - 7) payload out (omega (arith, h)) filled)
  | inr full ↦ rw full (after_payload payload out filled)
]

never_less : (n : ℕ) → ltb n 0 ≡ false
never_less n = ground arith

write_records-IsFilled :
    (sizes : List ℕ) (payload : Text)
    → All IsSize sizes
    → IsFilled payload ((write_records sizes payload).0 ++ (write_records sizes payload).1)
unfolding write_records IsSize
write_records-IsFilled [] payload h = nothing_added payload
write_records-IsFilled (size ∷ sizes) [] (bound, h) =
    elim (Bool-cases (size == padding_checkpoint)) [
      | inl e ↦ rw e (nothing_added [])
      | inr n ↦ elim bound [
        | inl same ↦ absurd (ground (arith, same, n))
        | inr small ↦
            rw
              (
                n,
                never_less size,
                append_assoc (waste size) (write_records sizes []).0 (write_records sizes []).1,
              )
              (waste_added size [] ((write_records sizes []).0 ++ (write_records sizes []).1) small
                (write_records-IsFilled sizes [] h))
      ]
    ]
write_records-IsFilled (size ∷ sizes) (b ∷ s) (bound, h) =
    elim (Bool-cases (size == padding_checkpoint)) [
      | inl e ↦ rw e (write_records-IsFilled sizes (b ∷ s) h)
      | inr n ↦ elim (Bool-cases (ltb size (length (b ∷ s)))) [
        | inl less ↦
            let rest = write_records sizes (drop size (b ∷ s)) in
            rw (n, less, append_assoc (take size (b ∷ s)) rest.0 rest.1)
              (split_payload size (b ∷ s) (rest.0 ++ rest.1)
                (write_records-IsFilled sizes (drop size (b ∷ s)) h))
        | inr more ↦ elim bound [
          | inl same ↦ absurd (ground (arith, same, n))
          | inr small ↦
              let done = write_records sizes [] in
              rw (n, more, append_assoc (last_record size (b ∷ s)) done.0 done.1)
                (last_record-IsFilled size (b ∷ s) (done.0 ++ done.1) small
                  (write_records-IsFilled sizes [] h))
        ]
      ]
    ]

-- The ends of the ranges fit the length field of a waste frame.
abbrev pub IsShortRule : PaddingRule → Type 0
IsShortRule (range min max) = max ≤ 65535
IsShortRule checkpoint = Unit

abbrev pub IsShort : PaddingScheme → Type 0
IsShort s = All (λ entry. All IsShortRule entry.1) s.rules

drawn-IsSize :
    (rules : List PaddingRule) (sizes : List ℕ)
    → IsDrawn rules sizes
    → All IsShortRule rules
    → All IsSize sizes
unfolding IsSize
drawn-IsSize [] [] h short = tt
drawn-IsSize (checkpoint ∷ rs) [] h short = absurd h
drawn-IsSize (range min max ∷ rs) [] h short = absurd h
drawn-IsSize [] (x ∷ xs) h short = absurd h
drawn-IsSize (checkpoint ∷ rs) (x ∷ xs) h short = (inl h.0, drawn-IsSize rs xs h.1 short.1)
drawn-IsSize (range min max ∷ rs) (x ∷ xs) h short =
    (inr (omega (arith, h.0.1, short.0)), drawn-IsSize rs xs h.1 short.1)

module _ (random : ℕ → ℕ → ℕ) where
  pub write_packet-IsFilled :
      (w : PaddedFrameWriter) (payload : Text)
      → IsScheme w.padding
      → IsShort w.padding
      → IsFilled payload (write_packet random w payload).1
        × ((write_packet random w payload).0.padding ≡ w.padding)
  unfolding write_packet
  write_packet-IsFilled w payload h short = elim (Bool-cases w.send_padding) [
    | inr over ↦ rw over (nothing_added payload, refl)
    | inl on ↦
        let packet = saturating_succ w.packet_counter in
        let sizes = record_payload_sizes w.padding packet (random packet) in
        let small =
          drawn-IsSize (find_rules packet w.padding.rules) sizes
            (record_payload_sizes-IsDrawn w.padding packet (random packet) h)
            (find_rules-All IsShortRule packet w.padding.rules short) in
        elim (Bool-cases (ltb packet w.padding.stop)) [
          | inl early ↦ rw (on, early) (write_records-IsFilled sizes payload small, refl)
          | inr late ↦ rw (on, late) (nothing_added payload, refl)
        ]
  ]
