-- ===== src/RateLimit/Prune.antt =====
-- What pruning, writing a bucket and compaction leave of the buckets.
use lineagelens.Prelude.{
  ℕ, ◌+◌, ◌*◌, ◌≤◌, ◌<◌, String, ◌≡◌, refl, Bool, true, false, List, [], ◌∷◌, ◌++◌, map, arith,
  eq_iff, leb, str_eq, ◌||◌, if◌then◌else◌, filter, All,
}
use lineagelens.RateLimit.{Events, second, bucket_of, put_bucket, prune, prune_entry, is_nonempty}

-- The times that are still in the window at `now`.
abbrev pub is_live : ℕ → ℕ → ℕ → Bool
is_live now window t = if leb (t + window * second) now then false else true

-- Oldest first: no time is later than one that stands behind it.
abbrev pub IsOrdered : List ℕ → Type 0
IsOrdered [] = Unit
IsOrdered (t ∷ ts) = All (λ u. t ≤ u) ts × IsOrdered ts

All-live :
    (now window t : ℕ) (ts : List ℕ)
    → All (λ u. t ≤ u) ts
    → now < t + window * second
    → filter (is_live now window) ts ≡ ts
All-live now window t [] h l = refl
All-live now window t (u ∷ ts) h l = ground (arith, All-live now window t ts h.1 l)

-- In an ordered bucket, pruning from the front is filtering.
pub prune-eq-filter :
    (now window : ℕ) (bucket : List ℕ)
    → IsOrdered bucket
    → prune now window bucket ≡ filter (is_live now window) bucket
unfolding prune
prune-eq-filter now window [] h = refl
prune-eq-filter now window (t ∷ ts) h =
    ground (arith, prune-eq-filter now window ts h.1, All-live now window t ts h.0)

-- Pruning by one window at one time twice is pruning once.
pub prune-prune :
    (now window : ℕ) (bucket : List ℕ)
    → prune now window (prune now window bucket) ≡ prune now window bucket
unfolding prune
prune-prune now window [] = refl
prune-prune now window (t ∷ ts) = ground (arith, prune-prune now window ts)

-- Pruning later forgets an earlier pruning by the same window.
pub prune_later :
    (earlier now window : ℕ) (bucket : List ℕ)
    → earlier ≤ now
    → prune now window (prune earlier window bucket) ≡ prune now window bucket
unfolding prune
prune_later earlier now window [] h = refl
prune_later earlier now window (t ∷ ts) h = ground (arith, prune_later earlier now window ts h)

pub bucket_of-put_bucket :
    (key other : String) (bucket : List ℕ) (events : Events)
    → bucket_of other (put_bucket key bucket events)
      ≡ (if str_eq key other then bucket else bucket_of other events)
unfolding bucket_of put_bucket
bucket_of-put_bucket key other bucket [] = ground arith
bucket_of-put_bucket key other bucket ((k, old) ∷ events) = ground (
  arith,
  bucket_of-put_bucket key other bucket events,
  eq_iff k key,
  eq_iff k other,
  eq_iff key other,
)

-- Pruning later forgets an earlier pruning, also under times that were added since.
pub prune_later-append :
    (earlier now window : ℕ) (bucket added : List ℕ)
    → earlier ≤ now
    → prune now window (prune earlier window bucket ++ added) ≡ prune now window (bucket ++ added)
unfolding prune
prune_later-append earlier now window [] added h = refl
prune_later-append earlier now window (t ∷ ts) added h =
    ground (arith, prune_later-append earlier now window ts added h)

-- `key in self._events`
pub contains : String → Events → Bool
contains key [] = false
contains key ((k, bucket) ∷ events) = str_eq k key || contains key events

-- A dict has no key twice.
abbrev pub IsDict : Events → Type 0
IsDict [] = Unit
IsDict ((k, bucket) ∷ events) = (contains k events ≡ false) × IsDict events

contains-put_bucket :
    (key other : String) (bucket : List ℕ) (events : Events)
    → contains other (put_bucket key bucket events) ≡ str_eq key other || contains other events
unfolding contains put_bucket
contains-put_bucket key other bucket [] = ground arith
contains-put_bucket key other bucket ((k, old) ∷ events) =
    ground (arith, contains-put_bucket key other bucket events, eq_iff k key)

pub put_bucket-IsDict :
    (key : String) (bucket : List ℕ) (events : Events)
    → IsDict events
    → IsDict (put_bucket key bucket events)
unfolding put_bucket
put_bucket-IsDict key bucket [] h = (unfold contains in refl, tt)
put_bucket-IsDict key bucket ((k, old) ∷ events) h = ground (
  arith,
  put_bucket-IsDict key bucket events h.1,
  contains-put_bucket key k bucket events,
  eq_iff k key,
  eq_iff key k,
)

-- What compaction does to the dict when it runs.
abbrev pub compacted : ℕ → ℕ → Events → Events
unfolding is_nonempty prune_entry
compacted now window events = filter is_nonempty (map (prune_entry now window) events)

bucket_of-absent :
    (key : String) (events : Events) → contains key events ≡ false → bucket_of key events ≡ []
unfolding bucket_of contains
bucket_of-absent key [] h = refl
bucket_of-absent key ((k, bucket) ∷ events) h = ground (arith, bucket_of-absent key events)

contains-compacted :
    (now window : ℕ) (key : String) (events : Events)
    → contains key events ≡ false
    → contains key (compacted now window events) ≡ false
unfolding contains is_nonempty prune_entry
contains-compacted now window key [] h = refl
contains-compacted now window key ((k, bucket) ∷ events) h =
    ground (arith, contains-compacted now window key events)

pub compacted-IsDict :
    (now window : ℕ) (events : Events) → IsDict events → IsDict (compacted now window events)
unfolding is_nonempty prune_entry
compacted-IsDict now window [] h = tt
compacted-IsDict now window ((k, bucket) ∷ events) h =
    ground
      (arith, compacted-IsDict now window events h.1, contains-compacted now window k events h.0)

-- Compaction prunes each bucket, whether or not it drops the key.
pub bucket_of-compacted :
    (now window : ℕ) (key : String) (events : Events)
    → IsDict events
    → bucket_of key (compacted now window events) ≡ prune now window (bucket_of key events)
unfolding bucket_of is_nonempty prune_entry
bucket_of-compacted now window key [] h = unfold prune in refl
bucket_of-compacted now window key ((k, bucket) ∷ events) h = ground (
  arith,
  bucket_of-compacted now window key events h.1,
  bucket_of-absent key (compacted now window events),
  contains-compacted now window k events h.0,
  eq_iff k key,
)
