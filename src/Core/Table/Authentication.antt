-- ===== src/Core/Table/Authentication.antt =====
-- Whom the core lets in after `replace_users`.
use aerion.Base.{ℕ, ◌≡◌, Option, none, some, List, arith, lookup, Result, ok, err, bytes_eq}
use aerion.Base.Text.{Text, trim}
use aerion.Net.{IpAddr}
use aerion.Core.Types.{CoreUser, CoreError, ProxyCore, ActiveSession, authentication_failed}
use aerion.Core.Table.{
  replace_users, authenticate_with_source, authenticate_password_hash_from,
  open_session_with_source,
}
use aerion.Core.Table.Grouping.{no_users}
use aerion.Core.Table.Validation.{
  owner_of, IsListed, NoCollision, no_users-Aligned, group_users-tables, group_users-Hashed,
}
use aerion.Core.Table.Hot.{replace_users-Replaced}

-- What authentication by a text is meant to do with a user list.
abbrev pub admit :
    Option Text → ProxyCore → Option IpAddr → ProxyCore × Result CoreError ActiveSession
admit none core source = (core, err authentication_failed)
admit (some id) core source = open_session_with_source core id source

module _ (hash : Text → List ℕ) (core : ProxyCore) (users : List CoreUser) (now : ℕ)
    (core' : ProxyCore) (e : replace_users hash core users now ≡ ok core') where
  credentials-owner_of : (c : Text) → lookup c core'.credentials.users ≡ owner_of c users
  credentials-owner_of c =
      let r = replace_users-Replaced hash core users now core' e in
      let (_, table) = group_users-tables hash no_users users r.g no_users-Aligned r.grouped in
      rw r.credentials (table c)

  -- After a successful `replace_users`, whatever the hash, a presented text opens a
  -- session of the user whose row has the trimmed text as its credential, and of no other; where there
  -- is none, authentication fails and the core is unchanged.
  pub authenticate-owner_of :
      (presented : Text) (source : Option IpAddr)
      → authenticate_with_source core' presented source
        ≡ admit (owner_of (trim presented) users) core' source
  unfolding authenticate_with_source
  authenticate-owner_of presented source = ground (arith, credentials-owner_of (trim presented))

  -- When no two credentials of a user list that `replace_users` accepted have the same hash, presenting
  -- the hash of one of them, as AnyTLS and Trojan do, lets in whom the text of that credential lets in:
  -- the credential that the hash stands for is trimmed and looked up in the list again.
  pub authenticate_password_hash-owner_of :
      (c id : Text) (source : IpAddr)
      → NoCollision hash users
      → owner_of c users ≡ some id
      → authenticate_password_hash_from core' (hash c) source
        ≡ admit (owner_of (trim c) users) core' (some source)
  unfolding authenticate_password_hash_from
  authenticate_password_hash-owner_of c id source apart h =
      let r = replace_users-Replaced hash core users now core' e in
      let (a, table) = group_users-tables hash no_users users r.g no_users-Aligned r.grouped in
      let reached = group_users-Hashed hash users apart r.g r.grouped in
      let listed : IsListed users c = ground (arith, h) in
      ground (
        arith,
        r.credentials,
        reached.hashes c listed,
        a.keys c,
        credentials-owner_of c,
        authenticate-owner_of c (some source),
      )
