-- ===== src/Fragments.antt =====
-- src/udp_fragments.rs: the fragments of one UDP packet, collected until the last one arrives.
pub mod Assembly
pub mod Orders
mod Runs
use aerion.Base.{
  ℕ, ◌+◌, ◌-◌, ◌≡◌, refl, Option, none, some, List, [], ◌∷◌, ◌++◌, ltb, leb, ◌==◌, if◌then◌else◌,
  length, get_elem?, set, replicate, map, Result, ok, err,
}
use aerion.Base.Text.{Text}

abbrev pub max_udp_payload : ℕ
max_udp_payload = 65535

pub data FragmentError : Type 0 where
  already_reassembled index_out_of_range duplicate_fragment payload_too_large : FragmentError

pub record FragmentPayload : Type 0 where
  pub chunks : List (Option Text)
  pub remaining : ℕ
  pub length : ℕ

-- `FragmentPayload::new`
unfoldable pub new_payload : ℕ → FragmentPayload
new_payload count = record { chunks = replicate count none; remaining = count; length = 0 }

-- `payload.extend(chunk.take().expect(..))` over all chunks; a chunk that is missing would panic there.
unfoldable pub collect : List (Option Text) → Text
collect [] = []
collect (none ∷ cs) = collect cs
collect (some p ∷ cs) = p ++ collect cs

-- The chunk is free and the payload fits: it is stored, and the last one yields the packet.
unfoldable pub store :
    FragmentPayload → ℕ → Text → FragmentPayload × Result FragmentError (Option Text)
unfolding collect
store f index payload =
    let chunks = set f.chunks index (some payload) in
    let stored : FragmentPayload = record {
      chunks = chunks;
      remaining = f.remaining - 1;
      length = f.length + length payload;
    } in
    if f.remaining - 1 == 0
    then (record stored { chunks = map (λ _. none) chunks }, ok (some (collect chunks)))
    else (stored, ok none)

-- `FragmentPayload::insert`
unfoldable pub insert :
    FragmentPayload → ℕ → Text → FragmentPayload × Result FragmentError (Option Text)
insert f index payload =
    if f.remaining == 0 then (f, err already_reassembled) else elim (get_elem? f.chunks index) [
      | none ↦ (f, err index_out_of_range)
      | some (some old) ↦ (f, err duplicate_fragment)
      | some none ↦
          if leb (length payload) (max_udp_payload - f.length)
          then store f index payload
          else (f, err payload_too_large)
    ]

-- `FragmentPayload::count`
abbrev pub count : FragmentPayload → ℕ
count f = length f.chunks
