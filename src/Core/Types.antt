-- ===== src/Core/Types.antt =====
-- The state of src/core.rs. What the source shares by `Arc` lies in two explicit heaps under `ProxyCore`:
-- `states` (the `UserState`s) and the `controls` of `Shared` (the `SessionControl`s, true once
-- triggered), so that a session handle and the user table can name the same object. Hash maps are
-- association lists in insertion order; an integer field is a u64.
use aerion.Base.{ℕ, Bool, Option, none, some, List}
use aerion.Base.Text.{Text}
use aerion.Base.{Bool, ◌&&◌, ◌==◌, true, false}

pub record CoreUserLimits : Type 0 where
  pub upload_limit_bps : Option ℕ
  pub download_limit_bps : Option ℕ
  pub quota_bytes : Option ℕ
  pub max_online_sessions : Option ℕ
  pub max_online_ips : Option ℕ

abbrev option_beq : Option ℕ → Option ℕ → Bool
option_beq none none = true
option_beq none (some b) = false
option_beq (some a) none = false
option_beq (some a) (some b) = a == b

-- The derived `PartialEq`.
unfoldable pub limits_beq : CoreUserLimits → CoreUserLimits → Bool
limits_beq a b =
    option_beq a.upload_limit_bps b.upload_limit_bps
    && (option_beq a.download_limit_bps b.download_limit_bps
        && (option_beq a.quota_bytes b.quota_bytes
            && (option_beq a.max_online_sessions b.max_online_sessions
                && option_beq a.max_online_ips b.max_online_ips)))

-- The derived `Default`.
abbrev pub no_limits : CoreUserLimits
no_limits = record {
  upload_limit_bps = none;
  download_limit_bps = none;
  quota_bytes = none;
  max_online_sessions = none;
  max_online_ips = none;
}

pub record CoreUser : Type 0 where
  pub id : Text
  pub credential : Text
  pub upload_limit_bps : Option ℕ
  pub download_limit_bps : Option ℕ
  pub quota_bytes : Option ℕ
  pub max_online_sessions : Option ℕ
  pub max_online_ips : Option ℕ

-- `CoreUser::password`
unfoldable pub password : Text → Text → CoreUser
password id credential = record {
  id = id;
  credential = credential;
  upload_limit_bps = none;
  download_limit_bps = none;
  quota_bytes = none;
  max_online_sessions = none;
  max_online_ips = none;
}

-- `CoreUser::limits`
unfoldable pub limits : CoreUser → CoreUserLimits
limits u = record {
  upload_limit_bps = u.upload_limit_bps;
  download_limit_bps = u.download_limit_bps;
  quota_bytes = u.quota_bytes;
  max_online_sessions = u.max_online_sessions;
  max_online_ips = u.max_online_ips;
}

pub data TrafficDirection : Type 0 where
  upload download : TrafficDirection

pub data CoreEvent : Type 0 where
  users_replaced : List Text → CoreEvent
  session_opened session_closed session_cancelled : Text → ℕ → Option Text → CoreEvent
  traffic_recorded : Text → ℕ → TrafficDirection → ℕ → ℕ → ℕ → CoreEvent

-- One unbounded channel: whether its receiver still exists, and what was sent, oldest first.
pub record Subscriber : Type 0 where
  pub is_open : Bool
  pub received : List CoreEvent

pub record CoreEventBus : Type 0 where
  pub subscribers : List Subscriber
  pub subscriber_count : ℕ

-- `next` is an `Instant`, in nanoseconds.
pub record ByteRateLimiter : Type 0 where
  pub bytes_per_second : ℕ
  pub next : ℕ

-- `control` is the place of the `SessionControl` in its heap.
pub record SessionSlot : Type 0 where
  pub control : ℕ
  pub source_ip : Option Text

pub record UserState : Type 0 where
  pub id : Text
  pub credentials : List Text
  pub upload : ℕ
  pub download : ℕ
  pub total : ℕ
  pub online : ℕ
  pub online_ips : ℕ
  pub limits : CoreUserLimits
  pub upload_limiter : ByteRateLimiter
  pub download_limiter : ByteRateLimiter
  pub sessions : List (ℕ × SessionSlot)

pub record CredentialIndex : Type 0 where
  pub users : List (Text × Text)
  pub password_hashes : List (List ℕ × Text)

-- What the methods of a user's state reach besides that state: the session controls and the bus.
pub record Shared : Type 0 where
  pub controls : List Bool
  pub events : CoreEventBus

-- The heap of `UserState`s, and what they share.
pub record Heap : Type 0 where
  pub states : List UserState
  pub shared : Shared

-- `ProxyCore` is its `CoreInner` and the heap; `users` gives a user's place in `states`.
pub record ProxyCore : Type 0 where
  pub users : List (Text × ℕ)
  pub credentials : CredentialIndex
  pub session_seq : ℕ
  pub heap : Heap

-- `ActiveSession`, behind every clone of a `CoreSession` that is not `disabled`.
pub record ActiveSession : Type 0 where
  pub user : ℕ
  pub session_id : ℕ
  pub control : ℕ

pub data CoreError : Type 0 where
  user_id_empty credential_empty duplicate_credential conflicting_limits : CoreError
  authentication_failed user_not_found : CoreError
  session_limit_exceeded ip_limit_exceeded session_cancelled quota_exceeded : CoreError
  -- `expect("core user credentials must be grouped")`
  credentials_not_grouped : CoreError
