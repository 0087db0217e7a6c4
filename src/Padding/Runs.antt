-- ===== src/Padding/Runs.antt =====
-- A padding scheme at concrete inputs.
use aerion.Base.{◌+◌, ◌≡◌, refl, [], ◌∷◌, ok}
use aerion.Base.Text.{Text, ascii}
use aerion.Padding.{
  PaddingScheme, range, checkpoint, from_text, find_rules, record_payload_sizes, padding_checkpoint,
  preface_padding_len,
}
use aerion.Padding.Scheme.{IsScheme, IsDrawn, from_text-IsScheme, record_payload_sizes-IsDrawn}

abbrev no_hash : Text → Text
no_hash text = []

abbrev small_text : Text
small_text = ascii "stop=3\n0=30-30\n 1=400-100,c,9-9 \n\n"

abbrev small_scheme : PaddingScheme
small_scheme = record {
  raw = ascii "stop=3" ∷ ascii "0=30-30" ∷ ascii "1=400-100,c,9-9" ∷ [];
  md5 = [];
  stop = 3;
  rules = (0, range 30 30 ∷ []) ∷ (1, range 100 400 ∷ checkpoint ∷ range 9 9 ∷ []) ∷ [];
}

small_parsed : from_text no_hash small_text ≡ ok small_scheme
unfolding from_text
small_parsed = refl

small_drawn :
    record_payload_sizes small_scheme 1 (λ i. 1000 + i) ≡ 200 ∷ padding_checkpoint ∷ 9 ∷ []
unfolding record_payload_sizes
small_drawn = refl

small_preface : preface_padding_len small_scheme (λ i. i) ≡ ok 30
unfolding preface_padding_len
small_preface = refl

from_text-IsScheme_example : IsScheme small_scheme
from_text-IsScheme_example = from_text-IsScheme no_hash small_text small_scheme small_parsed

record_payload_sizes-IsDrawn_example :
    IsDrawn (find_rules 1 small_scheme.rules) (record_payload_sizes small_scheme 1 (λ i. 1000 + i))
record_payload_sizes-IsDrawn_example =
    record_payload_sizes-IsDrawn small_scheme 1 (λ i. 1000 + i)
      (from_text-IsScheme no_hash small_text small_scheme small_parsed)
