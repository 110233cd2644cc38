-- ===== src/RateLimit/Window.antt =====
-- What one call of `check` does to the buckets, as later calls will read them.
use lineagelens.Prelude.{
  ℕ, ◌≤◌, max, String, ◌≡◌, Bool, List, [], ◌∷◌, ◌++◌, arith, eq_iff, str_eq, if◌then◌else◌, ◌&&◌,
}
use mathlib.Core.List.{append-nil}
use lineagelens.RateLimit.{
  InMemoryRateLimiter, bucket_of, put_bucket, prune, compact_if_necessary, check,
}
use lineagelens.RateLimit.Prune.{
  IsDict, put_bucket-IsDict, compacted-IsDict, bucket_of-compacted, bucket_of-put_bucket,
  prune_later, prune_later-append,
}

-- Compaction changes no bucket as a later call with the same window reads it.
prune-compact :
    (now later window : ℕ) (key : String) (s : InMemoryRateLimiter)
    → IsDict s.events
    → now ≤ later
    → prune later window (bucket_of key (compact_if_necessary now window s).events)
      ≡ prune later window (bucket_of key s.events)
unfolding compact_if_necessary
prune-compact now later window key s d h = ground (
  arith,
  bucket_of-compacted now window key s.events d,
  prune_later now later window (bucket_of key s.events) h,
)

compact-IsDict :
    (now window : ℕ) (s : InMemoryRateLimiter)
    → IsDict s.events
    → IsDict (compact_if_necessary now window s).events
unfolding compact_if_necessary
compact-IsDict now window s d = ground (arith, compacted-IsDict now window s.events d)

pub check-IsDict :
    (key : String) (limit window now : ℕ) (s : InMemoryRateLimiter)
    → IsDict s.events
    → IsDict (check key limit window now s).1.events
unfolding check
check-IsDict key limit window now s d =
    let bucket = prune now (max 1 window) (bucket_of key s.events) in
    let grown = bucket ++ now ∷ [] in
    let s' : InMemoryRateLimiter = record s { events = put_bucket key grown s.events } in
    ground (
      arith,
      put_bucket-IsDict key bucket s.events d,
      put_bucket-IsDict key grown s.events d,
      compact-IsDict now (max 1 window) s',
    )

-- The times of `other` that a call for `key` adds.
abbrev pub added : Bool → String → String → ℕ → List ℕ
added admitted key other now = if admitted && str_eq key other then now ∷ [] else []

-- A later call with the same window finds, for every key, what this call found for it, and the
-- time of this call behind it if it was this key's and was admitted.
pub prune-check :
    (key other : String) (limit window now later : ℕ) (s : InMemoryRateLimiter)
    → IsDict s.events
    → now ≤ later
    → let (d, s') = check key limit window now s in
      prune later (max 1 window) (bucket_of other s'.events)
      ≡ prune later (max 1 window) (bucket_of other s.events ++ added d.allowed key other now)
unfolding check
prune-check key other limit window now later s d h =
    let w = max 1 window in
    let bucket = prune now w (bucket_of key s.events) in
    let grown = bucket ++ now ∷ [] in
    let s' : InMemoryRateLimiter = record s { events = put_bucket key grown s.events } in
    ground (
      arith,
      eq_iff key other,
      put_bucket-IsDict key grown s.events d,
      prune-compact now later w other s',
      bucket_of-put_bucket key other bucket s.events,
      bucket_of-put_bucket key other grown s.events,
      prune_later now later w (bucket_of key s.events) h,
      prune_later-append now later w (bucket_of key s.events) (now ∷ []) h,
      append-nil (bucket_of other s.events),
    )
