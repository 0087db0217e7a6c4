-- ===== src/Protocol/Preface.antt =====
-- The authentication preface: the hash of the password and padding of a drawn length. SHA-256 is an
-- argument.
use aerion.Base.{
  ℕ, ◌%◌, ◌^◌, ◌≤◌, ◌≡◌, refl, sym, ◌∙◌, ◌⊎◌, inl, inr, Bool, true, false, Option, none, some, List,
  [], ◌∷◌, ◌++◌, append_assoc, arith, leb, ◌==◌, if◌then◌else◌, length, replicate, length-replicate,
  Result, ok, ◌>>=◌, ok_or, bytes_beq, bytes_beq_refl, bytes_beq-eq, Bool-cases, ok_injective,
}
use aerion.Base.Text.{Text}
use aerion.Base.Bytes.{be_bytes, from_be, length-be_bytes, from_be-be_bytes}
use aerion.Padding.{
  PaddingScheme, PaddingError, preface_padding_len, record_payload_sizes, first_size,
}
use aerion.Protocol.Stream.{WireError, authentication_failed, read_exact, read_exact-append}

-- `constant_time_eq`: no byte of the exclusive or of the two is set.
unfoldable pub constant_time_eq : Text → Text → Bool
constant_time_eq left right = if length left == length right then bytes_beq left right else false

-- `read_auth_preface_hash`
unfoldable pub read_auth_preface_hash : Text → Result WireError (Text × Text)
unfolding read_exact
read_auth_preface_hash s = do
  hash ← read_exact 32 s
  size ← read_exact 2 (hash.1)
  padding ← read_exact (from_be size.0) (size.1)
  ok (hash.0, padding.1)

module _ (sha256 : Text → Text) where
  -- `write_auth_preface`
  unfoldable pub write_auth_preface : PaddingScheme → (ℕ → ℕ) → Text → Result PaddingError Text
  unfolding preface_padding_len
  write_auth_preface padding random password = do
    padding_len ← preface_padding_len padding random
    ok (sha256 password ++ (be_bytes 2 (padding_len % 2 ^ 16) ++ replicate padding_len 0))

  -- The loop over the expected passwords: the last one that matches is kept.
  unfoldable pub find_password : Text → Option Text → List Text → Option Text
  unfolding constant_time_eq
  find_password hash found [] = found
  find_password hash found (p ∷ ps) =
      find_password hash (if constant_time_eq hash (sha256 p) then some p else found) ps

  -- `read_auth_preface_user`
  unfoldable pub read_auth_preface_user : Text → List Text → Result WireError (Text × Text)
  unfolding read_auth_preface_hash find_password
  read_auth_preface_user s passwords = do
    read ← read_auth_preface_hash s
    user ← ok_or (find_password (read.0) none passwords) authentication_failed
    ok (user, read.1)

  find_password_first :
      (password : Text) (passwords : List Text) (found : Option Text)
      → find_password (sha256 password) found (password ∷ passwords)
        ≡ find_password (sha256 password) (some password) passwords
  unfolding find_password constant_time_eq
  find_password_first password passwords found =
      let same = bytes_beq_refl (sha256 password) in
      let size : (length (sha256 password) == length (sha256 password)) ≡ true = ground arith in
      rw (size, same) refl

  -- What is written for a password is read as its hash, and what follows stays.
  pub read_auth_preface_hash-write_auth_preface :
      (padding : PaddingScheme) (random : ℕ → ℕ) (password bytes rest : Text)
      → length (sha256 password) ≡ 32
      → write_auth_preface padding random password ≡ ok bytes
      → read_auth_preface_hash (bytes ++ rest) ≡ ok (sha256 password, rest)
  unfolding write_auth_preface preface_padding_len read_auth_preface_hash
  read_auth_preface_hash-write_auth_preface padding random password bytes rest h e =
      let n = first_size (record_payload_sizes padding 0 random) in
      elim (Bool-cases (leb n 65535)) [
        | inr big ↦ (let wrong = rw big at e in absurd (ground (arith, wrong)))
        | inl fits ↦
            let small : n ≤ 65535 = ground (arith, fits) in
            let size = be_bytes 2 (n % 2 ^ 16) in
            let value : from_be size ≡ n =
              from_be-be_bytes 2 (n % 2 ^ 16) (omega arith) ∙ omega (arith, small) in
            let whole : bytes ≡ sha256 password ++ (size ++ replicate n 0) =
              sym (ok_injective {E = PaddingError} (rw fits at e)) in
            rw
              (
                whole,
                append_assoc (sha256 password) (size ++ replicate n 0) rest,
                append_assoc size (replicate n 0) rest,
                read_exact-append 32 (sha256 password) (size ++ (replicate n 0 ++ rest)) h,
                read_exact-append 2 size (replicate n 0 ++ rest) (length-be_bytes 2 (n % 2 ^ 16)),
                value,
                read_exact-append n (replicate n 0) rest (length-replicate n 0),
              )
              refl
      ]

  -- The passwords of a list whose hash is that of a password are that password.
  abbrev pub NoCollision : Text → List Text → Type 0
  NoCollision password [] = Unit {0}
  NoCollision password (p ∷ ps) =
      (sha256 password ≡ sha256 p → p ≡ password) × NoCollision password ps

  matches_only :
      (password p : Text)
      → (sha256 password ≡ sha256 p → p ≡ password)
      → (constant_time_eq (sha256 password) (sha256 p) ≡ false)
        ⊎ ((constant_time_eq (sha256 password) (sha256 p) ≡ true) × (p ≡ password))
  unfolding constant_time_eq
  matches_only password p only = ground (arith, bytes_beq-eq (sha256 password) (sha256 p), only)

  find_password_keeps :
      (password : Text) (ps : List Text)
      → NoCollision password ps
      → find_password (sha256 password) (some password) ps ≡ some password
  unfolding find_password
  find_password_keeps password [] h = refl
  find_password_keeps password (p ∷ ps) h = elim (matches_only password p h.0) [
    | inl other ↦ rw other (find_password_keeps password ps h.1)
    | inr (match, same) ↦ rw (match, same) (find_password_keeps password ps h.1)
  ]

  find_password_finds :
      (before after : List Text) (password : Text) (found : Option Text)
      → NoCollision password after
      → find_password (sha256 password) found (before ++ (password ∷ after)) ≡ some password
  unfolding find_password
  find_password_finds [] after password found h =
      find_password_first password after found ∙ find_password_keeps password after h
  find_password_finds (b ∷ before) after password found h =
      find_password_finds before after password
        (if constant_time_eq (sha256 password) (sha256 b) then some b else found) h

  -- When the password's hash has 32 bytes and writing its preface succeeds, and no later password of
  -- the list has the same hash: reading what was written finds the password in the list and leaves
  -- what follows the preface.
  pub read_auth_preface_user-write_auth_preface :
      (padding : PaddingScheme) (random : ℕ → ℕ) (password bytes rest : Text)
      (before after : List Text)
      → length (sha256 password) ≡ 32
      → write_auth_preface padding random password ≡ ok bytes
      → NoCollision password after
      → read_auth_preface_user (bytes ++ rest) (before ++ (password ∷ after)) ≡ ok (password, rest)
  unfolding read_auth_preface_user
  read_auth_preface_user-write_auth_preface padding random password bytes rest before after h e
        once =
      rw
        (
          read_auth_preface_hash-write_auth_preface padding random password bytes rest h e,
          find_password_finds before after password none once,
        )
        refl
