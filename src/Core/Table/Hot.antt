-- ===== src/Core/Table/Hot.antt =====
-- What a hot `replace_users` keeps of the states of users: their counters and their place.
use aerion.Base.{
  ℕ, ◌≡◌, refl, ◌∙◌, ◌⊎◌, inl, inr, none, some, List, [], ◌∷◌, ◌++◌, arith, get_elem?,
  get_elem?-set, get_elem?-append, length, lookup, insert, lookup-insert, keys, contains, ok,
  ok-parts, Result-cases, bytes_eq, bytes_beq_iff, Option-cases, Bool-cases, if◌then◌else◌, ◌==◌,
}
use aerion.Base.Text.{Text}
use aerion.Core.Types.{CoreUser, ProxyCore, Heap, Shared, UserState}
use aerion.Core.User.{new_state, cancel_sessions}
use aerion.Core.Table.Grouping.{Grouping, no_users, group_users}
use aerion.Core.Table.{
  replace_users, install, install_one, on_state, apply_user_update, update_limits, cancel_absent,
}

-- The counters of one user.
pub record SameTraffic (u v : UserState) : Type 0 where
  pub upload : v.upload ≡ u.upload
  pub download : v.download ≡ u.download
  pub total : v.total ≡ u.total
  pub id : v.id ≡ u.id

-- Every state of the first heap is in the second, at its place and with its counters.
unfoldable pub Kept : Heap → Heap → Type 0
Kept h h' =
    (at : ℕ) (u : UserState)
    → get_elem? h.states at ≡ some u
    → (v : UserState) × (get_elem? h'.states at ≡ some v) × SameTraffic u v

Kept-refl : (h : Heap) → Kept h h
unfolding Kept
Kept-refl h at u e = (u, e, record { upload = refl; download = refl; total = refl; id = refl })

pub Kept-trans : (h h' h'' : Heap) → Kept h h' → Kept h' h'' → Kept h h''
unfolding Kept
Kept-trans h h' h'' k l at u e =
    let (v, ev, sv) = k at u e in let (w, ew, sw) = l at v ev in (w, ew, ground (arith, sv, sw))

-- A method that leaves the counters alone keeps the heap.
on_state-Kept :
    (method : UserState → Shared → UserState × Shared) (at : ℕ) (h : Heap)
    → ((u : UserState) (s : Shared) → SameTraffic u (method u s).0)
    → Kept h (on_state method at h)
unfolding Kept
on_state-Kept method at h same j u e = elim (Option-cases (get_elem? h.states at)) [
  | inl n ↦ rw (n, on_state) (Kept-refl h j u e)
  | inr (w, n) ↦
      rw (n, on_state)
        (
          (if at == j then (method w h.shared).0 else u),
          get_elem?-set h.states at j (method w h.shared).0 u e,
          ground (arith, same w h.shared),
        )
]

apply_user_update-SameTraffic :
    (user : CoreUser) (cs : List Text) (now : ℕ) (u : UserState) (s : Shared)
    → SameTraffic u (apply_user_update user cs now u s).0
unfolding apply_user_update cancel_sessions update_limits
apply_user_update-SameTraffic user cs now u s = ground arith

cancel_sessions-SameTraffic : (u : UserState) (s : Shared) → SameTraffic u (cancel_sessions u s).0
unfolding cancel_sessions
cancel_sessions-SameTraffic u s = ground arith

append-Kept : (h : Heap) (u : UserState) → Kept h (record h { states = h.states ++ (u ∷ []) })
unfolding Kept
append-Kept h u at v e = (
  v,
  get_elem?-append h.states (u ∷ []) at v e,
  record { upload = refl; download = refl; total = refl; id = refl },
)

-- The ids that the second loop installs.
unfoldable pub ids : List (Text × CoreUser) → List Text
ids [] = []
ids ((k, u) ∷ r) = u.id ∷ ids r

-- What the second loop does to the heap, and which place it gives to an id.
pub record Installed (current : List (Text × ℕ)) (us : List (Text × CoreUser)) (h h' : Heap)
    (before after : List (Text × ℕ)) : Type 0 where
  pub kept : Kept h h'
  pub places :
      (id : Text) (at : ℕ)
      → lookup id current ≡ some at
      → lookup id after ≡ (if contains (ids us) id then some at else lookup id before)

pub install_one-cases :
    (current : List (Text × ℕ)) (m : List (Text × List Text)) (now : ℕ) (id : Text) (u : CoreUser)
    (h : Heap) (before : List (Text × ℕ)) (h' : Heap) (after : List (Text × ℕ))
    → install_one current m now id u h before ≡ ok (h', after)
    → (cs : List Text) × (((at : ℕ) × (lookup u.id current ≡ some at)
          × (h' ≡ on_state (apply_user_update u cs now) at h)
          × (after ≡ insert u.id at before))
        ⊎ ((lookup u.id current ≡ none)
            × (h' ≡ record h { states = h.states ++ (new_state u cs now ∷ []) })
            × (after ≡ insert u.id (length h.states) before)))
unfolding install_one
install_one-cases current m now id u h before h' after e = elim (Option-cases (lookup id m)) [
  | inl n ↦ absurd (cc (rw (n, install_one) at e))
  | inr (cs, n) ↦ elim (Option-cases (lookup u.id current)) [
    | inl f ↦ (cs, inr (f, ground (arith, n, f), ground (arith, n, f)))
    | inr (at, f) ↦ (cs, inl (at, f, ground (arith, n, f), ground (arith, n, f)))
  ]
]

install_one-Installed :
    (current : List (Text × ℕ)) (m : List (Text × List Text)) (now : ℕ) (id : Text) (u : CoreUser)
    (h : Heap) (before : List (Text × ℕ)) (h' : Heap) (after : List (Text × ℕ))
    → install_one current m now id u h before ≡ ok (h', after)
    → Installed current ((id, u) ∷ []) h h' before after
unfolding ids
install_one-Installed current m now id u h before h' after e =
    let (cs, change) = install_one-cases current m now id u h before h' after e in
    elim change [
      | inl (at, f, eh, ea) ↦ record {
        kept = rw eh (
            on_state-Kept (apply_user_update u cs now) at h
              (apply_user_update-SameTraffic u cs now));
        places = λ j place found.
            rw ea (ground (arith, lookup-insert u.id j at before, bytes_beq_iff u.id j, f, found));
      }
      | inr (f, eh, ea) ↦ record {
        kept = rw eh (append-Kept h (new_state u cs now));
        places = λ j place found. rw ea (
            ground (
              arith,
              lookup-insert u.id j (length h.states) before,
              bytes_beq_iff u.id j,
              f,
              found,
            ));
      }
    ]

pub install-Installed :
    (current : List (Text × ℕ)) (m : List (Text × List Text)) (now : ℕ)
    (us : List (Text × CoreUser)) (h : Heap) (before : List (Text × ℕ)) (h' : Heap)
    (after : List (Text × ℕ))
    → install current m now us h before ≡ ok (h', after)
    → Installed current us h h' before after
unfolding install ids
install-Installed current m now [] h before h' after e =
    let same : (h ≡ h') × (before ≡ after) = ground arith in
    record { kept = rw (← same.0) (Kept-refl h); places = λ id at _. rw (← same.1) }
install-Installed current m now ((id, u) ∷ us) h before h' after e =
    let ((h₁, map₁), rest, e₁) =
      ok-parts (λ (h₁, map₁). install current m now us h₁ map₁)
        (install_one current m now id u h before) e in
    let one = install_one-Installed current m now id u h before h₁ map₁ e₁ in
    let more = install-Installed current m now us h₁ map₁ h' after rest in
    record {
      kept = Kept-trans h h₁ h' one.kept more.kept;
      places = λ j at found. more.places j at found ∙ ground (arith, one.places j at found);
    }

pub cancel_absent-Kept :
    (active : List Text) (current : List (Text × ℕ)) (h : Heap)
    → Kept h (cancel_absent active current h)
unfolding cancel_absent
cancel_absent-Kept active [] h = Kept-refl h
cancel_absent-Kept active ((id, at) ∷ r) h = elim (Bool-cases (contains active id)) [
  | inl stays ↦ rw (stays, cancel_absent) (cancel_absent-Kept active r h)
  | inr gone ↦
      rw (gone, cancel_absent)
        (Kept-trans h (on_state cancel_sessions at h) _
          (on_state-Kept cancel_sessions at h cancel_sessions-SameTraffic)
          (cancel_absent-Kept active r (on_state cancel_sessions at h)))
]

-- The parts of a successful `replace_users`.
pub record Replaced (hash : Text → List ℕ) (core : ProxyCore) (users : List CoreUser) (now : ℕ)
    (core' : ProxyCore) : Type 0 where
  pub g : Grouping
  pub installed : Heap
  pub grouped : group_users hash no_users users ≡ ok g
  pub installs :
      install core.users g.credentials_by_id now g.users_by_id core.heap []
      ≡ ok (installed, core'.users)
  pub credentials :
      core'.credentials ≡ record { users = g.credential_map; password_hashes = g.password_hashes }
  pub session_seq : core'.session_seq ≡ core.session_seq
  pub states : core'.heap.states ≡ (cancel_absent (keys g.users_by_id) core.users installed).states
  pub controls :
      core'.heap.shared.controls
      ≡ (cancel_absent (keys g.users_by_id) core.users installed).shared.controls

pub replace_users-Replaced :
    (hash : Text → List ℕ) (core : ProxyCore) (users : List CoreUser) (now : ℕ) (core' : ProxyCore)
    → replace_users hash core users now ≡ ok core'
    → Replaced hash core users now core'
unfolding replace_users
replace_users-Replaced hash core users now core' e =
    elim (Result-cases (group_users hash no_users users)) [
      | inr (x, e₁) ↦ absurd (ground (arith, e₁))
      | inl (g, e₁) ↦
          elim (Result-cases
            (install core.users g.credentials_by_id now g.users_by_id core.heap [])) [
              | inr (x, e₂) ↦ absurd (ground (arith, e₁, e₂))
              | inl ((h, m), e₂) ↦ record {
                g = g;
                installed = h;
                grouped = e₁;
                installs = ground (arith, e₁, e₂);
                credentials = ground (arith, e₁, e₂);
                session_seq = ground (arith, e₁, e₂);
                states = ground (arith, e₁, e₂);
                controls = ground (arith, e₁, e₂);
              }
            ]
    ]
