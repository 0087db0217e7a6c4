-- ===== src/Core/Table/Validation.antt =====
-- What a user list that passes the first loop of `replace_users` leaves in the credential tables.
use aerion.Base.{
  ℕ, All, true, ◌≡◌, refl, ◌∙◌, false, Option, none, some, List, [], ◌∷◌, arith, is_empty, lookup,
  insert, lookup-insert, contains, add, contains-add, if◌then◌else◌, ok, ok-parts, bytes_eq,
  bytes_beq_iff, bytes_beq, Option-cases, is_some, or_else,
}
use aerion.Base.Text.{Text, trim}
use aerion.Core.Types.{CoreUser}
use aerion.Core.Table.Grouping.{
  Grouping, no_users, group_users, add_user, enter_credential, enter_user, grouped_credentials,
}

-- The user list as a specification: the id of the first row with the credential.
abbrev pub owner_of : Text → List CoreUser → Option Text
owner_of c [] = none
owner_of c (u ∷ us) = if bytes_beq u.credential c then some u.id else owner_of c us

-- What entering one row changes.
pub record Entered (hash : Text → List ℕ) (g : Grouping) (u : CoreUser) (g' : Grouping)
    : Type 0 where
  pub id_given : is_empty (trim u.id) ≡ false
  pub credential_given : is_empty (trim u.credential) ≡ false
  pub fresh : contains g.credentials u.credential ≡ false
  pub credentials : g'.credentials ≡ add u.credential g.credentials
  pub credential_map : g'.credential_map ≡ insert u.credential u.id g.credential_map
  pub password_hashes :
      g'.password_hashes ≡ insert (hash u.credential) u.credential g.password_hashes
  pub credentials_by_id :
      g'.credentials_by_id
      ≡ insert u.id
          (add u.credential (grouped_credentials u.id g.credentials_by_id))
          g.credentials_by_id

pub add_user-Entered :
    (hash : Text → List ℕ) (g : Grouping) (u : CoreUser) (g' : Grouping)
    → add_user hash g u ≡ ok g'
    → Entered hash g u g'
unfolding add_user enter_credential enter_user
add_user-Entered hash g u g' e = ground arith

-- A text is the credential of a row of the list.
abbrev pub IsListed : List CoreUser → Text → Type 0
IsListed users c = is_some (owner_of c users) ≡ true

-- No two credentials of the list have the same hash.
abbrev pub NoCollision : (Text → List ℕ) → List CoreUser → Type 0
NoCollision hash users =
    (a b : Text) → IsListed users a → IsListed users b → hash a ≡ hash b → a ≡ b

IsListed-tail :
    (u : CoreUser) (users : List CoreUser) (c : Text) → IsListed users c → IsListed (u ∷ users) c
IsListed-tail u users c h = ground (arith, h)

rows-IsListed_in :
    (all users : List CoreUser)
    → ((c : Text) → IsListed users c → IsListed all c)
    → All (λ u. IsListed all u.credential) users
rows-IsListed_in all [] h = tt
rows-IsListed_in all (u ∷ us) h = (
  h u.credential (ground (arith, bytes_beq_iff u.credential u.credential)),
  rows-IsListed_in all us (λ c l. h c (IsListed-tail u us c l)),
)

pub rows-IsListed : (users : List CoreUser) → All (λ u. IsListed users u.credential) users
rows-IsListed users = rows-IsListed_in users users (λ c l. l)

-- The seen credentials are the keys of the map.
pub record Aligned (g : Grouping) : Type 0 where
  pub keys : (c : Text) → contains g.credentials c ≡ is_some (lookup c g.credential_map)

pub no_users-Aligned : Aligned no_users
no_users-Aligned = record { keys = λ c. refl }

-- Each credential of the list that was seen is reached by its hash.
pub record Hashed (hash : Text → List ℕ) (all : List CoreUser) (g : Grouping) : Type 0 where
  pub hashes :
      (c : Text)
      → IsListed all c
      → lookup (hash c) g.password_hashes ≡ (if contains g.credentials c then some c else none)

module _ (hash : Text → List ℕ) where
  Entered-Aligned :
      (g : Grouping) (u : CoreUser) (g' : Grouping) → Entered hash g u g' → Aligned g → Aligned g'
  Entered-Aligned g u g' n a = record {
    keys = λ c.
        rw (n.credentials, n.credential_map)
          (ground (
            arith,
            contains-add u.credential c g.credentials,
            lookup-insert u.credential c u.id g.credential_map,
            a.keys c,
          ));
  }

  -- The tables after the loop, from any tables before it.
  pub group_users-tables :
      (g : Grouping) (users : List CoreUser) (g' : Grouping)
      → Aligned g
      → group_users hash g users ≡ ok g'
      → Aligned g'
        × ((c : Text)
            → lookup c g'.credential_map ≡ or_else (lookup c g.credential_map) (owner_of c users))
  unfolding group_users
  group_users-tables g [] g' a e =
      let same : g ≡ g' = cc in
      (rw (← same) a, λ c. rw (← same) (ground (arith, Option-cases (lookup c g.credential_map))))
  group_users-tables g (u ∷ us) g' a e =
      let (g₁, rest, e₁) = ok-parts (λ g₁. group_users hash g₁ us) (add_user hash g u) e in
      let n = add_user-Entered hash g u g₁ e₁ in
      let (a', table) = group_users-tables g₁ us g' (Entered-Aligned g u g₁ n a) rest in
      (
        a',
        λ c.
            table c
            ∙ rw n.credential_map (
                ground (
                  arith,
                  lookup-insert u.credential c u.id g.credential_map,
                  n.fresh,
                  a.keys c,
                  a.keys u.credential,
                  bytes_beq_iff u.credential c,
                )),
      )

module _ (hash : Text → List ℕ) (all : List CoreUser) (apart : NoCollision hash all) where
  Entered-Hashed :
      (g : Grouping) (u : CoreUser) (g' : Grouping)
      → IsListed all u.credential
      → Entered hash g u g'
      → Hashed hash all g
      → Hashed hash all g'
  Entered-Hashed g u g' listed n a = record {
    hashes = λ c l.
        rw (n.credentials, n.password_hashes)
          (ground (
            arith,
            contains-add u.credential c g.credentials,
            lookup-insert (hash u.credential) (hash c) u.credential g.password_hashes,
            a.hashes c l,
            bytes_beq_iff u.credential c,
            bytes_beq_iff (hash u.credential) (hash c),
            apart u.credential c listed l,
          ));
  }

  group_users-Hashed_from :
      (g : Grouping) (users : List CoreUser) (g' : Grouping)
      → All (λ u. IsListed all u.credential) users
      → Hashed hash all g
      → group_users hash g users ≡ ok g'
      → Hashed hash all g'
  unfolding group_users
  group_users-Hashed_from g [] g' listed a e = let same : g ≡ g' = cc in rw (← same) a
  group_users-Hashed_from g (u ∷ us) g' listed a e =
      let (g₁, rest, e₁) = ok-parts (λ g₁. group_users hash g₁ us) (add_user hash g u) e in
      group_users-Hashed_from g₁ us g' listed.1
        (Entered-Hashed g u g₁ listed.0 (add_user-Entered hash g u g₁ e₁) a) rest

  -- The hash table after the loop.
  pub group_users-Hashed :
      (g' : Grouping) → group_users hash no_users all ≡ ok g' → Hashed hash all g'
  group_users-Hashed g' e =
      group_users-Hashed_from no_users all g' (rows-IsListed all) (record { hashes = λ c l. refl })
        e
