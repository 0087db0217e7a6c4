-- ===== src/Core/Table/Replacement.antt =====
-- `replace_users` as a whole: when it succeeds, whom it lets in, and what it keeps of a user's state.
use aerion.Base.{
  ℕ, ◌≡◌, refl, ◌⊎◌, inl, inr, Bool, true, false, none, List, [], ◌∷◌, ◌++◌, arith, All, length,
  lookup, insert, lookup-insert, insert_fresh, ok, err, ok-parts, Result-cases, bytes_eq,
  bytes_beq_iff, bytes_beq, Option-cases, is_some, add, contains, keys, is_some-lookup, Bool-cases,
  ◌||◌,
}
use aerion.Base.Text.{Text}
use aerion.Core.Types.{CoreUser, CoreError, ProxyCore, Heap}
use aerion.Core.Table.Grouping.{
  Grouping, no_users, group_users, add_user, enter_credential, enter_user, grouped_credentials,
}
use aerion.Core.User.{new_state}
use aerion.Core.Table.{apply_user_update, replace_users, install, install_one, on_state}

-- Every user of the table has its credentials grouped under the same id.
abbrev pub Grouped : List (Text × List Text) → List (Text × CoreUser) → Type 0
Grouped m = All (λ p. (p.1.id ≡ p.0) × (is_some (lookup p.0 m) ≡ true))

Grouped-insert :
    (m : List (Text × List Text)) (id : Text) (cs : List Text) (us : List (Text × CoreUser))
    → Grouped m us
    → Grouped (insert id cs m) us
Grouped-insert m id cs [] h = tt
Grouped-insert m id cs ((j, u) ∷ us) h =
    ((h.0.0, ground (arith, lookup-insert id j cs m, h.0.1)), Grouped-insert m id cs us h.1)

Grouped-append :
    (m : List (Text × List Text)) (us vs : List (Text × CoreUser))
    → Grouped m us
    → Grouped m vs
    → Grouped m (us ++ vs)
Grouped-append m [] vs h k = k
Grouped-append m (u ∷ us) vs h k = (h.0, Grouped-append m us vs h.1 k)

enter_user-cases :
    (g g' : Grouping) (u : CoreUser)
    → enter_user g u ≡ ok g'
    → (g' ≡ g)
      ⊎ ((lookup u.id g.users_by_id ≡ none)
          × (g' ≡ record g {
            event_user_ids = g.event_user_ids ++ (u.id ∷ []);
            users_by_id = insert u.id u g.users_by_id;
          }))
unfolding enter_user
enter_user-cases g g' u e = ground arith

enter_user-Grouped :
    (g g' : Grouping) (u : CoreUser)
    → enter_user g u ≡ ok g'
    → is_some (lookup u.id g.credentials_by_id) ≡ true
    → Grouped g.credentials_by_id g.users_by_id
    → Grouped g'.credentials_by_id g'.users_by_id
enter_user-Grouped g g' u e has h = elim (enter_user-cases g g' u e) [
  | inl same ↦ rw same h
  | inr (fresh, eq) ↦
      rw (eq, insert_fresh u.id u g.users_by_id fresh)
        (Grouped-append g.credentials_by_id g.users_by_id ((u.id, u) ∷ []) h ((refl, has), tt))
]

add_user-enter_user :
    (hash : Text → List ℕ) (g g' : Grouping) (u : CoreUser)
    → add_user hash g u ≡ ok g'
    → enter_user (enter_credential hash g u) u ≡ ok g'
unfolding add_user
add_user-enter_user hash g g' u e = ground arith

add_user-Grouped :
    (hash : Text → List ℕ) (g g' : Grouping) (u : CoreUser)
    → add_user hash g u ≡ ok g'
    → Grouped g.credentials_by_id g.users_by_id
    → Grouped g'.credentials_by_id g'.users_by_id
unfolding enter_credential
add_user-Grouped hash g g' u e h =
    let cs = add u.credential (grouped_credentials u.id g.credentials_by_id) in
    enter_user-Grouped (enter_credential hash g u) g' u (add_user-enter_user hash g g' u e)
      (ground (arith, lookup-insert u.id u.id cs g.credentials_by_id, bytes_beq_iff u.id u.id))
      (Grouped-insert g.credentials_by_id u.id cs g.users_by_id h)

pub group_users-Grouped :
    (hash : Text → List ℕ) (g : Grouping) (users : List CoreUser) (g' : Grouping)
    → group_users hash g users ≡ ok g'
    → Grouped g.credentials_by_id g.users_by_id
    → Grouped g'.credentials_by_id g'.users_by_id
unfolding group_users
group_users-Grouped hash g [] g' e h = let same : g ≡ g' = cc in rw (← same) h
group_users-Grouped hash g (u ∷ us) g' e h =
    let (g₁, rest, e₁) = ok-parts (λ g₁. group_users hash g₁ us) (add_user hash g u) e in
    group_users-Grouped hash g₁ us g' rest (add_user-Grouped hash g g₁ u e₁ h)

-- Whether some row of the list has the id.
abbrev pub has_id : Text → List CoreUser → Bool
has_id id [] = false
has_id id (u ∷ us) = bytes_beq u.id id || has_id id us

add_user-keys :
    (hash : Text → List ℕ) (g g' : Grouping) (u : CoreUser) (id : Text)
    → add_user hash g u ≡ ok g'
    → contains (keys g'.users_by_id) id ≡ (contains (keys g.users_by_id) id || bytes_beq u.id id)
unfolding enter_credential enter_user
add_user-keys hash g g' u id e = ground (
  arith,
  add_user-enter_user hash g g' u e,
  is_some-lookup id g.users_by_id,
  is_some-lookup id g'.users_by_id,
  is_some-lookup u.id g.users_by_id,
  lookup-insert u.id id u g.users_by_id,
  bytes_beq_iff u.id id,
)

-- The table that the first loop builds has exactly the ids of the list.
pub group_users-keys :
    (hash : Text → List ℕ) (g : Grouping) (users : List CoreUser) (g' : Grouping) (id : Text)
    → group_users hash g users ≡ ok g'
    → contains (keys g'.users_by_id) id ≡ (contains (keys g.users_by_id) id || has_id id users)
unfolding group_users
group_users-keys hash g [] g' id e =
    let same : g ≡ g' = cc in
    rw (← same) (ground (arith, Bool-cases (contains (keys g.users_by_id) id)))
group_users-keys hash g (u ∷ us) g' id e =
    let (g₁, rest, e₁) = ok-parts (λ g₁. group_users hash g₁ us) (add_user hash g u) e in
    ground (
      arith,
      group_users-keys hash g₁ us g' id rest,
      add_user-keys hash g g₁ u id e₁,
      Bool-cases (contains (keys g.users_by_id) id),
    )

install_one-total :
    (current : List (Text × ℕ)) (m : List (Text × List Text)) (now : ℕ) (id : Text) (u : CoreUser)
    (h : Heap) (user_map : List (Text × ℕ))
    → is_some (lookup id m) ≡ true
    → (h' : Heap) × (map' : List (Text × ℕ)) × (install_one current m now id u h user_map
        ≡ ok (h', map'))
unfolding install_one
install_one-total current m now id u h user_map has = elim (Option-cases (lookup id m)) [
  | inl e ↦ absurd (ground (arith, e))
  | inr (cs, e) ↦ elim (Option-cases (lookup u.id current)) [
    | inl f ↦
        rw (e, f, install_one)
          (
            record h { states = h.states ++ (new_state u cs now ∷ []) },
            insert u.id (length h.states) user_map,
            refl,
          )
    | inr (at, f) ↦
        rw (e, f, install_one)
          (on_state (apply_user_update u cs now) at h, insert u.id at user_map, refl)
  ]
]

install-total :
    (current : List (Text × ℕ)) (m : List (Text × List Text)) (now : ℕ)
    (us : List (Text × CoreUser)) (h : Heap) (user_map : List (Text × ℕ))
    → Grouped m us
    → (r : Heap × List (Text × ℕ)) × (install current m now us h user_map ≡ ok r)
unfolding install
install-total current m now [] h user_map g = ((h, user_map), refl)
install-total current m now ((id, u) ∷ us) h user_map ((same, has), gs) =
    let (h', map', e) = install_one-total current m now id u h user_map has in
    rw (e, install) (install-total current m now us h' map' gs)

-- `replace_users` fails on no list that passes the checks of its first loop: the `expect` on the
-- grouped credentials never panics, so a refused list is always one of the four reported errors.
pub replace_users-group_users :
    (hash : Text → List ℕ) (core : ProxyCore) (users : List CoreUser) (now : ℕ) (e : CoreError)
    → replace_users hash core users now ≡ err e
    → group_users hash no_users users ≡ err e
unfolding replace_users
replace_users-group_users hash core users now e h =
    elim (Result-cases (group_users hash no_users users)) [
      | inr (x, e₁) ↦ ground (arith, e₁)
      | inl (g, e₁) ↦
          let (r, e₂) =
            install-total core.users g.credentials_by_id now g.users_by_id core.heap []
              (group_users-Grouped hash no_users users g e₁ tt) in
          absurd (ground (arith, e₁, e₂))
    ]
