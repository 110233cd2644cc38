-- ===== src/RateLimit/Shared.antt =====
-- The limiter that all replicas of the backend share
-- (lineagelens-backend/app/core/rate_limit_redis.py): its Lua script, which Redis runs as one step,
-- and `acheck`. Times are whole microseconds, as in RateLimit; the clock of the server and those of
-- the replicas are one clock.
use Prim.Native.String
use lineagelens.Prelude.{
  ℕ, ◌+◌, ◌-◌, ◌*◌, ◌/◌, ◌≤◌, max, String, ◌≡◌, Bool, true, false, Option, none, some, List, [],
  ◌∷◌, ◌++◌, leb, str_eq, if◌then◌else◌, length, filter, All,
}
use lineagelens.RateLimit.{RateLimitDecision, second}

-- The commands of Redis that the script calls, on a store `S`. `at now` is the store as the server
-- finds it at the clock reading `now`, when the keys whose time is over are gone.
pub record SortedSets (S : Type 0) : Type 0 where
  pub at : ℕ → S → S
  pub zremrangebyscore : String → ℕ → S → S
  pub zcard : String → S → ℕ
  -- The score of `zrange key 0 0 WITHSCORES`, `none` for an empty answer.
  pub oldest : String → S → Option ℕ
  pub zadd : String → ℕ → String → S → S
  -- `expire key seconds` at a clock reading.
  pub expire : String → ℕ → ℕ → S → S

abbrev pub first? : List ℕ → Option ℕ
first? [] = none
first? (t ∷ ts) = some t

-- The scores above a bound.
abbrev pub is_above : ℕ → ℕ → Bool
is_above bound t = if leb t bound then false else true

-- What Redis documents of these commands: each key has its scores in ascending order, its members,
-- and the moment at which it goes.
pub record Documented (S : Type 0) (r : SortedSets S) : Type 0 where
  pub scores : String → S → List ℕ
  pub has : String → String → S → Bool
  pub deadline : String → S → ℕ
  pub scores-at :
      (now : ℕ) (k : String) (s : S)
      → scores k (r.at now s) ≡ (if leb (deadline k s) now then [] else scores k s)
  pub deadline-at : (now : ℕ) (k : String) (s : S) → deadline k (r.at now s) ≡ deadline k s
  pub has-at : (now : ℕ) (k m : String) (s : S) → has k m s ≡ false → has k m (r.at now s) ≡ false
  pub scores-zrem :
      (k j : String) (bound : ℕ) (s : S)
      → scores j (r.zremrangebyscore k bound s)
        ≡ (if str_eq k j then filter (is_above bound) (scores j s) else scores j s)
  pub deadline-zrem :
      (k j : String) (bound : ℕ) (s : S) → deadline j (r.zremrangebyscore k bound s) ≡ deadline j s
  pub has-zrem :
      (k j m : String) (bound : ℕ) (s : S)
      → has j m s ≡ false
      → has j m (r.zremrangebyscore k bound s) ≡ false
  pub zcard-length : (k : String) (s : S) → r.zcard k s ≡ length (scores k s)
  pub oldest-first : (k : String) (s : S) → r.oldest k s ≡ first? (scores k s)
  pub scores-zadd :
      (k m : String) (now : ℕ) (s : S)
      → has k m s ≡ false
      → All (λ t. t ≤ now) (scores k s)
      → scores k (r.zadd k now m s) ≡ scores k s ++ now ∷ []
  pub scores-zadd_other :
      (k j m : String) (now : ℕ) (s : S)
      → str_eq k j ≡ false
      → scores j (r.zadd k now m s) ≡ scores j s
  pub deadline-zadd_other :
      (k j m : String) (now : ℕ) (s : S)
      → str_eq k j ≡ false
      → deadline j (r.zadd k now m s) ≡ deadline j s
  pub has-zadd :
      (k j m n : String) (now : ℕ) (s : S)
      → str_eq m n ≡ false
      → has j n s ≡ false
      → has j n (r.zadd k now m s) ≡ false
  pub scores-expire :
      (k j : String) (now seconds : ℕ) (s : S) → scores j (r.expire k now seconds s) ≡ scores j s
  pub has-expire :
      (k j m : String) (now seconds : ℕ) (s : S)
      → has j m s ≡ false
      → has j m (r.expire k now seconds s) ≡ false
  pub deadline-expire :
      (k j : String) (now seconds : ℕ) (s : S)
      → deadline j (r.expire k now seconds s)
        ≡ (if str_eq k j then now + seconds * second else deadline j s)

-- What the script returns: the count, whether it added the member, and the oldest time.
pub record Answer : Type 0 where
  pub count : ℕ
  pub added : Bool
  pub oldest_time : ℕ

abbrev pub or_now : ℕ → Option ℕ → ℕ
or_now now none = now
or_now now (some t) = t

module _ {S : Type 0} (r : SortedSets S) where
  -- `_SLIDING_WINDOW_LUA`
  unfoldable pub sliding_window : String → ℕ → ℕ → ℕ → ℕ → String → S → Answer × S
  sliding_window key window_start now limit expiry member s =
      let pruned = r.zremrangebyscore key window_start (r.at now s) in
      let count = r.zcard key pruned in
      if leb limit count
      then (
        record { count = count; added = false; oldest_time = or_now now (r.oldest key pruned) },
        pruned,
      )
      else (
        record { count = count + 1; added = true; oldest_time = 0 },
        r.expire key now expiry (r.zadd key now member pruned),
      )

-- The decision that `acheck` reads from the answer.
unfoldable pub decision_of : ℕ → ℕ → ℕ → Answer → RateLimitDecision
decision_of now safe_limit safe_window a =
    if a.added
    then record {
      allowed = true;
      retry_after_seconds = 0;
      remaining = safe_limit - a.count;
      limit = safe_limit;
    }
    else record {
      allowed = false;
      retry_after_seconds = max 1 ((a.oldest_time + safe_window * second - now) / second);
      remaining = 0;
      limit = safe_limit;
    }

-- `acheck` at the clock reading `now`, with the prefix of the limiter, the text of the clock reading
-- and the random token of the call. The clock is past the first window, so `window_start` is natural.
unfoldable pub acheck :
    {S : Type 0}
    → SortedSets S
    → String
    → (ℕ → String)
    → String
    → ℕ
    → ℕ
    → ℕ
    → String
    → S
    → RateLimitDecision × S
unfolding sliding_window decision_of
acheck r key_prefix text_of key limit window_seconds now token s =
    let safe_limit = max 1 limit in
    let safe_window = max 1 window_seconds in
    let member = String.◌++◌ (text_of now) (String.◌++◌ ":" token) in
    let (answer, s') =
      sliding_window r (String.◌++◌ key_prefix key) (now - safe_window * second) now safe_limit
        (safe_window + 1) member s in
    (decision_of now safe_limit safe_window answer, s')
