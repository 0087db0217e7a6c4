-- ===== src/Fragments/Runs.antt =====
-- A packet of three fragments that arrive out of order.
use aerion.Base.{◌≡◌, refl, none, some, List, [], ◌∷◌, arith, ok, nat_eq}
use aerion.Base.Text.{Text, ascii}
use aerion.Fragments.{new_payload}
use aerion.Fragments.Assembly.{insert_all, insert_all-one_packet, new_payload-IsPartial}

abbrev three_pieces : List Text
three_pieces = ascii "he" ∷ ascii "ll" ∷ ascii "o!" ∷ []

insert_all-one_packet_example :
    insert_all three_pieces (new_payload 3) (2 ∷ 0 ∷ 1 ∷ [])
    ≡ ok none ∷ ok none ∷ ok (some (ascii "hello!")) ∷ []
unfolding new_payload
insert_all-one_packet_example =
    insert_all-one_packet three_pieces (new_payload 3) (2 ∷ 0 ∷ 1 ∷ [])
      (new_payload-IsPartial three_pieces (omega arith))
      (refl, refl, (refl, refl, (refl, refl, tt))) refl
