-- ===== src/Core/User/Sessions.antt =====
-- The session map of a user against its online counts, and what closing and cancelling do.
use aerion.Base.{
  ℕ, zero, suc, ◌<◌, ◌≡◌, refl, ◌∙◌, inl, inr, Bool, true, false, ◌||◌, Option, none, List, [], ◌∷◌,
  arith, length, lookup, remove-insert_fresh, to_set, All, set, get_or, get_or-set_self,
  get_or-set_ne, length-set, ok, nat_eq, bytes_eq, Bool-cases, ◌==◌, contains,
}
use aerion.Base.Text.{Text}
use aerion.Net.{IpAddr}
use aerion.Core.Types.{UserState, SessionSlot, Shared, session_cancelled}
use aerion.Core.User.{
  open_session, close_session, cancel_sessions, cancel_slots, enter, normalize, source_ips,
  is_cancelled, new_control, cancel, send_event,
}

set-true_keeps :
    (xs : List Bool) (i j : ℕ) → get_or xs j false ≡ true → get_or (set xs i true) j false ≡ true
set-true_keeps [] i j h = h
set-true_keeps (x ∷ xs) zero zero h = refl
set-true_keeps (x ∷ xs) zero (suc j) h = h
set-true_keeps (x ∷ xs) (suc i) zero h = h
set-true_keeps (x ∷ xs) (suc i) (suc j) h = set-true_keeps xs i j h

-- The two online counters are those of the session map.
pub record IsCounted (u : UserState) : Type 0 where
  pub sessions : u.online ≡ length u.sessions
  pub ips : u.online_ips ≡ length (to_set (source_ips u.sessions))

pub open_session-IsCounted :
    (u : UserState) (s : Shared) (session_id : ℕ) (ip : Option IpAddr) (u' : UserState)
    (s' : Shared) (control : ℕ)
    → open_session u s session_id ip ≡ ok (u', s', control)
    → IsCounted u'
unfolding open_session enter
open_session-IsCounted u s session_id ip u' s' control e = ground arith

pub close_session-IsCounted :
    (u : UserState) (s : Shared) (session_id : ℕ) → IsCounted (close_session u s session_id).0
unfolding close_session
close_session-IsCounted u s session_id = record { sessions = refl; ips = refl }

pub cancel_sessions-IsCounted : (u : UserState) (s : Shared) → IsCounted (cancel_sessions u s).0
unfolding cancel_sessions source_ips
cancel_sessions-IsCounted u s = record { sessions = refl; ips = refl }

-- Opening a session under a new id and closing it again gives back the user's state, with its counts.
pub close_session-open_session :
    (u : UserState) (s : Shared) (session_id : ℕ) (ip : Option IpAddr) (u' : UserState)
    (s' : Shared) (control : ℕ)
    → IsCounted u
    → lookup session_id u.sessions ≡ none
    → open_session u s session_id ip ≡ ok (u', s', control)
    → (close_session u' s' session_id).0 ≡ u
unfolding open_session close_session enter
close_session-open_session u s session_id ip u' s' control c fresh e = ground (
  arith,
  remove-insert_fresh session_id (record { control = (new_control s).1; source_ip = normalize ip })
      u.sessions fresh,
)

-- The controls of a session map.
unfoldable pub controls_of : List (ℕ × SessionSlot) → List ℕ
controls_of [] = []
controls_of ((k, slot) ∷ r) = slot.control ∷ controls_of r

cancel-is_cancelled :
    (s : Shared) (c d : ℕ)
    → c < length s.controls
    → is_cancelled (cancel s c) d ≡ (c == d || is_cancelled s d)
unfolding cancel
cancel-is_cancelled s c d h =
    ground
      (arith, get_or-set_self s.controls c true false h, get_or-set_ne s.controls c d true false)

length-cancel : (s : Shared) (c : ℕ) → length (cancel s c).controls ≡ length s.controls
unfolding cancel
length-cancel s c = length-set s.controls c true

cancel-keeps : (s : Shared) (c d : ℕ) → is_cancelled s d ≡ true → is_cancelled (cancel s c) d ≡ true
unfolding cancel
cancel-keeps s c d h = set-true_keeps s.controls c d h

-- Every control of the sessions lies in the heap.
abbrev pub InHeap : ℕ → List ℕ → Type 0
InHeap n = All (λ c. c < n)

-- Cancelling a list of sessions triggers their controls and no other.
pub cancel_slots-is_cancelled :
    (id : Text) (s : Shared) (m : List (ℕ × SessionSlot)) (d : ℕ)
    → InHeap (length s.controls) (controls_of m)
    → is_cancelled (cancel_slots id s m) d ≡ (contains (controls_of m) d || is_cancelled s d)
unfolding cancel_slots controls_of
cancel_slots-is_cancelled id s [] d h = refl
cancel_slots-is_cancelled id s ((k, slot) ∷ r) d h =
    let told : Shared = send_event s (session_cancelled id k slot.source_ip) in
    ground (
      arith,
      cancel_slots-is_cancelled id (cancel told slot.control) r d
          (rw (length-cancel told slot.control) h.1),
      cancel-is_cancelled told slot.control d h.0,
      Bool-cases (contains (controls_of r) d),
    )

-- Cancelling keeps the heap of controls in size, and never takes a cancellation back.
pub cancel_slots-grows :
    (id : Text) (s : Shared) (m : List (ℕ × SessionSlot)) (d : ℕ)
    → (length (cancel_slots id s m).controls ≡ length s.controls)
      × (is_cancelled s d ≡ true → is_cancelled (cancel_slots id s m) d ≡ true)
unfolding cancel_slots
cancel_slots-grows id s [] d = (refl, λ h. h)
cancel_slots-grows id s ((k, slot) ∷ r) d =
    let told : Shared = send_event s (session_cancelled id k slot.source_ip) in
    let (same, keeps) = cancel_slots-grows id (cancel told slot.control) r d in
    (same ∙ length-cancel told slot.control, λ h. keeps (cancel-keeps told slot.control d h))

-- A control of the sessions that lies in the heap is triggered, wherever the others lie.
pub cancel_slots-hits :
    (id : Text) (s : Shared) (m : List (ℕ × SessionSlot)) (d : ℕ)
    → d < length s.controls
    → contains (controls_of m) d ≡ true
    → is_cancelled (cancel_slots id s m) d ≡ true
unfolding cancel_slots controls_of
cancel_slots-hits id s [] d h c = cc
cancel_slots-hits id s ((k, slot) ∷ r) d h c =
    let told : Shared = send_event s (session_cancelled id k slot.source_ip) in
    elim (Bool-cases (slot.control == d)) [
      | inl hit ↦
          (cancel_slots-grows id (cancel told slot.control) r d).1
            (ground (arith, cancel-is_cancelled told slot.control d))
      | inr miss ↦
          cancel_slots-hits id (cancel told slot.control) r d
            (rw (length-cancel told slot.control) h) (ground arith)
    ]
