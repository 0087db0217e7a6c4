-- ===== src/Replay/Runs.antt =====
-- Concrete runs of the replay cache.
use aerion.Base.{ℕ, ◌≡◌, refl, [], ◌∷◌, arith, ok, nat_eq}
use aerion.Replay.{ReplayCache, insert}
use aerion.Replay.Window.{IsCoherent, insert-spec_insert}

-- One entry is older than the ttl of 8, one is not.
abbrev two_keys : ReplayCache ℕ
two_keys = record { keys = 5 ∷ 7 ∷ []; expiry = (10, 5) ∷ (20, 7) ∷ []; ttl = 8; capacity = 2 }

two_keys-IsCoherent : IsCoherent 20 two_keys
two_keys-IsCoherent = record {
  same = refl;
  once = (refl, (refl, tt));
  ordered = (omega arith, (omega arith, omega arith));
  bounded = omega arith;
}

insert-spec_insert_example :
    ((insert two_keys 9 21).0.expiry ≡ (20, 7) ∷ (21, 9) ∷ [])
    × ((insert two_keys 9 21).1 ≡ ok tt)
    × IsCoherent 21 (insert two_keys 9 21).0
insert-spec_insert_example = insert-spec_insert two_keys 9 20 21 two_keys-IsCoherent (omega arith)
