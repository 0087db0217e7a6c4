-- ===== src/Core/Table/Removal.antt =====
-- What happens to the sessions of a user that a new user list leaves out.
use aerion.Base.{
  ℕ, ◌<◌, ◌≡◌, ◌⊎◌, inl, inr, true, false, some, List, [], ◌∷◌, arith, get_elem?, get_elem?-set,
  get_elem?-append, length, lookup, keys, contains, ok, bytes_eq, nat_eq, ok-parts, ◌==◌, ==_iff,
  Bool-cases, Option-cases, bytes_beq, bytes_beq_iff,
}
use aerion.Base.Text.{Text}
use aerion.Core.Types.{CoreUser, ProxyCore, UserState, Shared, Heap}
use aerion.Core.User.{cancel_sessions, is_cancelled, new_state}
use aerion.Core.User.Sessions.{controls_of, cancel_slots-grows, cancel_slots-hits}
use aerion.Core.Table.{
  replace_users, cancel_absent, on_state, apply_user_update, update_limits, install, install_one,
}
use aerion.Core.Table.Grouping.{no_users}
use aerion.Core.Table.Replacement.{has_id, group_users-keys}
use aerion.Core.Table.Hot.{replace_users-Replaced, install_one-cases}

-- A method that touches sessions only by cancelling them.
record OnlyCancels (method : UserState → Shared → UserState × Shared) : Type 0 where
  size : (u : UserState) (s : Shared) → length (method u s).1.controls ≡ length s.controls
  keeps :
      (u : UserState) (s : Shared) (c : ℕ)
      → is_cancelled s c ≡ true
      → is_cancelled (method u s).1 c ≡ true
  holds :
      (u : UserState) (s : Shared) (c : ℕ)
      → c < length s.controls
      → contains (controls_of u.sessions) c ≡ true
      → (contains (controls_of (method u s).0.sessions) c ≡ true)
        ⊎ (is_cancelled (method u s).1 c ≡ true)

-- The control is triggered, or a session of the state at the place still holds it.
record Tracked (c at : ℕ) (h : Heap) : Type 0 where
  inside : c < length h.shared.controls
  held :
      (is_cancelled h.shared c ≡ true)
      ⊎ ((u : UserState) × (get_elem? h.states at ≡ some u)
          × (contains (controls_of u.sessions) c ≡ true))

cancel_sessions-OnlyCancels : OnlyCancels cancel_sessions
unfolding cancel_sessions
cancel_sessions-OnlyCancels = record {
  size = λ u s. (cancel_slots-grows u.id s u.sessions 0).0;
  keeps = λ u s c. (cancel_slots-grows u.id s u.sessions c).1;
  holds = λ u s c h held. inr (cancel_slots-hits u.id s u.sessions c h held);
}

apply_user_update-OnlyCancels :
    (user : CoreUser) (cs : List Text) (now : ℕ) → OnlyCancels (apply_user_update user cs now)
unfolding apply_user_update update_limits
apply_user_update-OnlyCancels user cs now =
    let c = cancel_sessions-OnlyCancels in
    record {
      size = λ u s. ground (arith, c.size u s);
      keeps = λ u s d h. ground (arith, c.keeps u s d h);
      holds = λ u s d h held. ground (arith, c.holds u s d h held);
    }

on_state-Tracked :
    (method : UserState → Shared → UserState × Shared) (i c at : ℕ) (h : Heap)
    → OnlyCancels method
    → Tracked c at h
    → Tracked c at (on_state method i h)
on_state-Tracked method i c at h m t = elim (Option-cases (get_elem? h.states i)) [
  | inl n ↦ rw (n, on_state) t
  | inr (w, n) ↦
      rw (n, on_state)
        (record {
          inside = rw (m.size w h.shared) t.inside;
          held = elim t.held [
            | inl k ↦ inl (m.keeps w h.shared c k)
            | inr (u, eu, cu) ↦ elim (Bool-cases (i == at)) [
              | inr other ↦
                  inr
                    (u, ground (arith, get_elem?-set h.states i at (method w h.shared).0 u eu), cu)
              | inl this ↦
                  let there = get_elem?-set h.states i at (method w h.shared).0 u eu in
                  let same : u ≡ w = ground (arith, ==_iff i at) in
                  elim (m.holds w h.shared c t.inside (rw (← same) cu)) [
                    | inl still ↦ inr ((method w h.shared).0, ground (arith, there), still)
                    | inr hit ↦ inl hit
                  ]
            ]
          ];
        })
]

-- The control is triggered for good.
record Triggered (c : ℕ) (h : Heap) : Type 0 where
  inside : c < length h.shared.controls
  hit : is_cancelled h.shared c ≡ true

on_state-Triggered :
    (method : UserState → Shared → UserState × Shared) (i c : ℕ) (h : Heap)
    → OnlyCancels method
    → Triggered c h
    → Triggered c (on_state method i h)
on_state-Triggered method i c h m t = elim (Option-cases (get_elem? h.states i)) [
  | inl n ↦ rw (n, on_state) t
  | inr (w, n) ↦
      rw (n, on_state)
        (record { inside = rw (m.size w h.shared) t.inside; hit = m.keeps w h.shared c t.hit })
]

on_state-cancel_sessions :
    (c at : ℕ) (h : Heap) → Tracked c at h → Triggered c (on_state cancel_sessions at h)
unfolding cancel_sessions
on_state-cancel_sessions c at h t =
    let m = cancel_sessions-OnlyCancels in
    elim (Option-cases (get_elem? h.states at)) [
      | inl n ↦
          rw (n, on_state)
            (record {
              inside = t.inside;
              hit = elim t.held [ inl k ↦ k | inr (u, eu, _) ↦ absurd (cc (n, eu)) ];
            })
      | inr (w, n) ↦
          rw (n, on_state)
            (record {
              inside = rw (m.size w h.shared) t.inside;
              hit = elim t.held [
                | inl k ↦ m.keeps w h.shared c k
                | inr (u, eu, cu) ↦
                    let same : u ≡ w = cc (n, eu) in
                    cancel_slots-hits w.id h.shared w.sessions c t.inside (rw (← same) cu)
              ];
            })
    ]

install-Tracked :
    (current : List (Text × ℕ)) (m : List (Text × List Text)) (now : ℕ)
    (us : List (Text × CoreUser)) (h : Heap) (before : List (Text × ℕ)) (h' : Heap)
    (after : List (Text × ℕ)) (c at : ℕ)
    → install current m now us h before ≡ ok (h', after)
    → Tracked c at h
    → Tracked c at h'
unfolding install
install-Tracked current m now [] h before h' after c at e t =
    let same : h ≡ h' = ground arith in rw (← same) t
install-Tracked current m now ((id, u) ∷ us) h before h' after c at e t =
    let ((h₁, map₁), rest, e₁) =
      ok-parts (λ (h₁, map₁). install current m now us h₁ map₁)
        (install_one current m now id u h before) e in
    let (cs, change) = install_one-cases current m now id u h before h₁ map₁ e₁ in
    install-Tracked current m now us h₁ map₁ h' after c at rest (elim change [
      | inl (i, f, eh, ea) ↦ rw eh (
          on_state-Tracked (apply_user_update u cs now) i c at h
            (apply_user_update-OnlyCancels u cs now) t)
      | inr (f, eh, ea) ↦ rw eh (record {
        inside = t.inside;
        held = elim t.held [
          | inl k ↦ inl k
          | inr (v, ev, cv) ↦
              inr (v, get_elem?-append h.states (new_state u cs now ∷ []) at v ev, cv)
        ];
      })
    ])

cancel_absent-Triggered :
    (active : List Text) (current : List (Text × ℕ)) (h : Heap) (c : ℕ)
    → Triggered c h
    → Triggered c (cancel_absent active current h)
unfolding cancel_absent
cancel_absent-Triggered active [] h c t = t
cancel_absent-Triggered active ((id, i) ∷ r) h c t = elim (Bool-cases (contains active id)) [
  | inl stays ↦ rw (stays, cancel_absent) (cancel_absent-Triggered active r h c t)
  | inr gone ↦
      rw (gone, cancel_absent)
        (cancel_absent-Triggered active r (on_state cancel_sessions i h) c
          (on_state-Triggered cancel_sessions i c h cancel_sessions-OnlyCancels t))
]

cancel_absent-hits :
    (active : List Text) (current : List (Text × ℕ)) (h : Heap) (id : Text) (c at : ℕ)
    → lookup id current ≡ some at
    → contains active id ≡ false
    → Tracked c at h
    → Triggered c (cancel_absent active current h)
unfolding cancel_absent
cancel_absent-hits active [] h id c at found gone t = cc
cancel_absent-hits active ((j, i) ∷ r) h id c at found gone t = elim (Bool-cases (bytes_beq j id)) [
  | inl this ↦
      let same : j ≡ id = (bytes_beq_iff j id).0 this in
      let place : i ≡ at = ground arith in
      rw (same, gone, place, cancel_absent)
        (cancel_absent-Triggered active r (on_state cancel_sessions at h) c
          (on_state-cancel_sessions c at h t))
  | inr other ↦
      let found' : lookup id r ≡ some at = ground arith in
      elim (Bool-cases (contains active j)) [
        | inl stays ↦
            rw (stays, cancel_absent) (cancel_absent-hits active r h id c at found' gone t)
        | inr left ↦
            rw (left, cancel_absent)
              (cancel_absent-hits active r (on_state cancel_sessions i h) id c at found' gone
                (on_state-Tracked cancel_sessions i c at h cancel_sessions-OnlyCancels t))
      ]
]

-- When a new user list leaves a user out, every session that the user has open is cancelled: its
-- control, which the handle of the session reads, is triggered in the new core.
pub replace_users-cancels_absent :
    (hash : Text → List ℕ) (core : ProxyCore) (users : List CoreUser) (now : ℕ) (core' : ProxyCore)
    (id : Text) (at c : ℕ) (u : UserState)
    → replace_users hash core users now ≡ ok core'
    → lookup id core.users ≡ some at
    → get_elem? core.heap.states at ≡ some u
    → contains (controls_of u.sessions) c ≡ true
    → c < length core.heap.shared.controls
    → has_id id users ≡ false
    → is_cancelled core'.heap.shared c ≡ true
replace_users-cancels_absent hash core users now core' id at c u e place found held inside absent =
    let r = replace_users-Replaced hash core users now core' e in
    let tracked =
      install-Tracked core.users r.g.credentials_by_id now r.g.users_by_id core.heap [] r.installed
        core'.users c at r.installs (record { inside = inside; held = inr (u, found, held) }) in
    let t =
      cancel_absent-hits (keys r.g.users_by_id) core.users r.installed id c at place
        (ground (arith, group_users-keys hash no_users users r.g id r.grouped)) tracked in
    rw r.controls t.hit
