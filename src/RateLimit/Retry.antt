-- ===== src/RateLimit/Retry.antt =====
-- What a refusal tells its caller.
use lineagelens.Prelude.{
  ℕ, ◌+◌, ◌*◌, ◌≤◌, ◌<◌, max, String, ◌≡◌, true, false, List, [], ◌∷◌, arith, eq_refl, length,
}
use lineagelens.RateLimit.{
  InMemoryRateLimiter, second, bucket_of, put_bucket, prune, retry_after, refuse, check,
}
use lineagelens.RateLimit.Prune.{bucket_of-put_bucket}

length-prune : (now window : ℕ) (ts : List ℕ) → length (prune now window ts) ≤ length ts
unfolding prune
length-prune now window [] = omega arith
length-prune now window (t ∷ ts) = ground (arith, length-prune now window ts)

-- One more second than promised, the oldest time has left the window.
prune_after_retry :
    (now later window : ℕ) (ts : List ℕ)
    → now + (retry_after now window ts + 1) * second ≤ later
    → 0 < length ts
    → length (prune later window ts) < length ts
unfolding prune retry_after
prune_after_retry now later window [] h n = elim n [ ]
prune_after_retry now later window (t ∷ ts) h n = ground (arith, length-prune later window ts)

retry_after_pos : (now window : ℕ) (ts : List ℕ) → 1 ≤ retry_after now window ts
unfolding retry_after
retry_after_pos now window [] = omega arith
retry_after_pos now window (t ∷ ts) = omega arith

check_refused :
    (key : String) (limit window now : ℕ) (s : InMemoryRateLimiter)
    → (check key limit window now s).0.allowed ≡ false
    → let bucket = prune now (max 1 window) (bucket_of key s.events) in
      (max 1 limit ≤ length bucket)
      × (check key limit window now s ≡ (
        refuse now (max 1 limit) (max 1 window) bucket,
        record s { events = put_bucket key bucket s.events },
      ))
unfolding check
check_refused key limit window now s h = ground arith

check_admits :
    (key : String) (limit window now : ℕ) (s : InMemoryRateLimiter)
    → length (prune now (max 1 window) (bucket_of key s.events)) < max 1 limit
    → (check key limit window now s).0.allowed ≡ true
unfolding check
check_admits key limit window now s h = ground arith

-- A refused caller is told to wait at least one second. If its bucket holds no more live times than
-- the limit, then a call that comes at least a second after the advised time, with no call in
-- between, is admitted.
pub retry_admitted :
    (key : String) (limit window now later : ℕ) (s : InMemoryRateLimiter)
    → length (prune now (max 1 window) (bucket_of key s.events)) ≤ max 1 limit
    → (check key limit window now s).0.allowed ≡ false
    → now + ((check key limit window now s).0.retry_after_seconds + 1) * second ≤ later
    → (1 ≤ (check key limit window now s).0.retry_after_seconds)
      × ((check key limit window later (check key limit window now s).1).0.allowed ≡ true)
unfolding refuse
retry_admitted key limit window now later s fits refused late =
    let w = max 1 window in
    let bucket = prune now w (bucket_of key s.events) in
    let r = check_refused key limit window now s refused in
    let s' : InMemoryRateLimiter = record s { events = put_bucket key bucket s.events } in
    let late' : now + (retry_after now w bucket + 1) * second ≤ later = rw r.1 at late in
    let same : bucket_of key s'.events ≡ bucket =
      rw (bucket_of-put_bucket key key bucket s.events, eq_refl key) in
    let room : length (prune later w (bucket_of key s'.events)) < max 1 limit =
      rw same (omega (arith, prune_after_retry now later w bucket late', r.0)) in
    rw r.1 (retry_after_pos now w bucket, check_admits key limit window later s' room)
