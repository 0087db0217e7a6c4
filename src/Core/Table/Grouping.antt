-- ===== src/Core/Table/Grouping.antt =====
-- The first loop of `replace_users`: it checks the new user list and groups it by user id. Nothing of
-- the running core is touched before the whole list has passed. SHA-256 is the argument `hash`.
use aerion.Base.{
  ℕ, not, none, some, List, [], ◌∷◌, ◌++◌, is_empty, lookup, insert, contains, add, if◌then◌else◌,
  Result, ok, err, ◌>>=◌, ◌>>◌, ensure, bytes_eq,
}
use aerion.Base.Text.{Text, trim}
use aerion.Core.Types.{
  CoreUser, limits, limits_beq, CoreError, user_id_empty, credential_empty, duplicate_credential,
  conflicting_limits,
}

-- The six local variables of the loop.
pub record Grouping : Type 0 where
  pub credentials : List Text
  pub users_by_id : List (Text × CoreUser)
  pub credentials_by_id : List (Text × List Text)
  pub credential_map : List (Text × Text)
  pub password_hashes : List (List ℕ × Text)
  pub event_user_ids : List Text

abbrev pub no_users : Grouping
no_users = record {
  credentials = [];
  users_by_id = [];
  credentials_by_id = [];
  credential_map = [];
  password_hashes = [];
  event_user_ids = [];
}

-- `entry(id).or_default()`
unfoldable pub grouped_credentials : Text → List (Text × List Text) → List Text
grouped_credentials id m = elim (lookup id m) [ none ↦ [] | some cs ↦ cs ]

-- The credential is new: enter it in the four tables that are keyed by it or by its owner.
unfoldable pub enter_credential : (Text → List ℕ) → Grouping → CoreUser → Grouping
unfolding grouped_credentials
enter_credential hash g user = record g {
  credentials = add user.credential g.credentials;
  credential_map = insert user.credential user.id g.credential_map;
  password_hashes = insert (hash user.credential) user.credential g.password_hashes;
  credentials_by_id =
      insert user.id (add user.credential (grouped_credentials user.id g.credentials_by_id))
        g.credentials_by_id;
}

-- The first row of an id sets its limits, and the later ones must agree.
unfoldable pub enter_user : Grouping → CoreUser → Result CoreError Grouping
enter_user g user = elim (lookup user.id g.users_by_id) [
  | some existing ↦
      if limits_beq (limits existing) (limits user) then ok g else err conflicting_limits
  | none ↦ ok (record g {
    event_user_ids = g.event_user_ids ++ (user.id ∷ []);
    users_by_id = insert user.id user g.users_by_id;
  })
]

unfoldable pub add_user : (Text → List ℕ) → Grouping → CoreUser → Result CoreError Grouping
add_user hash g user = do
  ensure (not (is_empty (trim user.id))) user_id_empty
  ensure (not (is_empty (trim user.credential))) credential_empty
  ensure (not (contains g.credentials user.credential)) duplicate_credential
  enter_user (enter_credential hash g user) user

unfoldable pub group_users : (Text → List ℕ) → Grouping → List CoreUser → Result CoreError Grouping
group_users hash g [] = ok g
group_users hash g (user ∷ users) = do g' ← add_user hash g user; group_users hash g' users
