-- ===== src/RateLimit.antt =====
-- The in-memory sliding-window rate limiter (lineagelens-backend/app/core/rate_limit.py).
-- Times are whole microseconds; the source's floats count seconds. `check` holds the lock for its
-- whole body, so one call is one step. A limit or window below 1 is read as 1, so natural numbers
-- stand for the two arguments.
pub mod Prune
pub mod Window
pub mod Tracks
pub mod Bounds
pub mod Retry
pub mod ClientIp
pub mod Shared
pub mod Follows
pub mod Sets
pub mod Calls
pub mod Replicas
mod SharedTests
mod Tests
use lineagelens.Prelude.{
  ℕ, ◌+◌, ◌-◌, ◌*◌, ◌/◌, max, String, Bool, true, false, List, [], ◌∷◌, ◌++◌, leb, str_eq, not,
  if◌then◌else◌, length, filter, map,
}

pub record RateLimitDecision : Type 0 where
  pub allowed : Bool
  pub retry_after_seconds : ℕ
  pub remaining : ℕ
  pub limit : ℕ

-- The microseconds in a second.
abbrev pub second : ℕ
second = 1000000

-- `_events`: the keys in insertion order, each with its times, oldest first.
abbrev pub Events : Type 0
Events = List (String × List ℕ)

pub record InMemoryRateLimiter : Type 0 where
  pub events : Events
  pub max_tracked_keys : ℕ

-- `__init__`
pub init : ℕ → InMemoryRateLimiter
init max_tracked_keys = record { events = []; max_tracked_keys = max 1000 max_tracked_keys }

-- `self._events[key]` of a `defaultdict(deque)`: an absent key has the empty bucket.
pub bucket_of : String → Events → List ℕ
bucket_of key [] = []
bucket_of key ((k, bucket) ∷ events) = if str_eq k key then bucket else bucket_of key events

-- What the mutated bucket of a key leaves in the dict.
pub put_bucket : String → List ℕ → Events → Events
put_bucket key bucket [] = (key, bucket) ∷ []
put_bucket key bucket ((k, old) ∷ events) =
    if str_eq k key then (k, bucket) ∷ events else (k, old) ∷ put_bucket key bucket events

-- `_prune`: `bucket[0] <= now - window_seconds` drops the oldest time.
pub prune : ℕ → ℕ → List ℕ → List ℕ
prune now window_seconds [] = []
prune now window_seconds (oldest ∷ bucket) =
    let rest = prune now window_seconds bucket in
    if leb (oldest + window_seconds * second) now then rest else oldest ∷ bucket

pub is_nonempty : String × List ℕ → Bool
is_nonempty (key, []) = false
is_nonempty (key, oldest ∷ bucket) = true

pub prune_entry : ℕ → ℕ → String × List ℕ → String × List ℕ
prune_entry now window_seconds (key, bucket) = (key, prune now window_seconds bucket)

-- `_compact_if_necessary`: every bucket is pruned by this request's window, and the empty go.
pub compact_if_necessary : ℕ → ℕ → InMemoryRateLimiter → InMemoryRateLimiter
unfolding is_nonempty prune_entry
compact_if_necessary now window_seconds s =
    if leb (length s.events) s.max_tracked_keys
    then s
    else record s { events = filter is_nonempty (map (prune_entry now window_seconds) s.events) }

-- `max(1, int((oldest + safe_window) - now))`, in seconds. The pruned bucket has no time at or
-- before `now - safe_window`, so the difference is positive and `int` rounds it down.
pub retry_after : ℕ → ℕ → List ℕ → ℕ
retry_after now window [] = 1
retry_after now window (oldest ∷ bucket) = max 1 ((oldest + window * second - now) / second)

pub refuse : ℕ → ℕ → ℕ → List ℕ → RateLimitDecision
unfolding retry_after
refuse now safe_limit safe_window bucket = record {
  allowed = false;
  retry_after_seconds = retry_after now safe_window bucket;
  remaining = 0;
  limit = safe_limit;
}

pub admit : ℕ → List ℕ → RateLimitDecision
admit safe_limit bucket = record {
  allowed = true;
  retry_after_seconds = 0;
  remaining = safe_limit - length bucket;
  limit = safe_limit;
}

-- `check` at the clock reading `now`.
pub check : String → ℕ → ℕ → ℕ → InMemoryRateLimiter → RateLimitDecision × InMemoryRateLimiter
unfolding refuse admit
check key limit window_seconds now s =
    let safe_limit = max 1 limit in
    let safe_window = max 1 window_seconds in
    let bucket = prune now safe_window (bucket_of key s.events) in
    let grown = bucket ++ now ∷ [] in
    if leb safe_limit (length bucket)
    then (
      refuse now safe_limit safe_window bucket,
      record s { events = put_bucket key bucket s.events },
    )
    else (
      admit safe_limit grown,
      compact_if_necessary now safe_window (record s { events = put_bucket key grown s.events }),
    )
