-- ===== src/RateLimit/Tracks.antt =====
-- The invariant of a run: how the limiter's buckets stand for the times admitted so far.
use mathlib.Core.List.{append-nil}
use native.Mathlib.Nat.{le_refl, le_trans}
use lineagelens.Prelude.{
  ◌∙◌, ap, sym, ℕ, ◌+◌, ◌*◌, ◌≤◌, ◌<◌, max, String, ◌≡◌, refl, Bool, true, false, List, [], ◌∷◌,
  ◌++◌, arith, eq_iff, leb, str_eq, if◌then◌else◌, length, filter, All, Bool-cases, inl, inr, ◌&&◌,
  length-append, filter-append,
}
use lineagelens.RateLimit.{InMemoryRateLimiter, second, bucket_of, prune, check}
use lineagelens.RateLimit.Prune.{IsDict, IsOrdered, is_live, prune-eq-filter, prune_later-append}
use lineagelens.RateLimit.Window.{added, check-IsDict, prune-check}

-- `t` lies in the window that ends at `last`.
abbrev pub in_window : ℕ → ℕ → ℕ → Bool
in_window last window t = leb t last && (if leb (t + window * second) last then false else true)

abbrev pub count_in : ℕ → ℕ → List ℕ → ℕ
count_in last window times = length (filter (in_window last window) times)

-- The times admitted so far, as the limiter will go on to read them.
pub record Tracks (limit window clock : ℕ) (key : String) (past : List ℕ) (s : InMemoryRateLimiter)
    : Type 0 where
  pub dict : IsDict s.events
  pub ordered : IsOrdered past
  pub past_clock : All (λ t. t ≤ clock) past
  pub view :
      (now : ℕ)
      → clock ≤ now
      → prune now (max 1 window) (bucket_of key s.events) ≡ prune now (max 1 window) past
  pub bounded : (last : ℕ) → count_in last (max 1 window) past ≤ max 1 limit

count_in-le-live :
    (last now window : ℕ) (ts : List ℕ)
    → now ≤ last
    → count_in last window ts ≤ length (filter (is_live now window) ts)
count_in-le-live last now window [] h = omega arith
count_in-le-live last now window (t ∷ ts) h = ground (arith, count_in-le-live last now window ts h)

pub All-append_one :
    (n m : ℕ) (ts : List ℕ) → All (λ t. t ≤ n) ts → n ≤ m → All (λ t. t ≤ m) (ts ++ m ∷ [])
All-append_one n m [] h l = (omega arith, tt)
All-append_one n m (t ∷ ts) h l = (omega arith, All-append_one n m ts h.1 l)

pub All-mono : (n m : ℕ) (ts : List ℕ) → All (λ t. t ≤ n) ts → n ≤ m → All (λ t. t ≤ m) ts
All-mono n m [] h l = tt
All-mono n m (t ∷ ts) h l = (omega arith, All-mono n m ts h.1 l)

All-ge-append_one :
    (t m : ℕ) (ts : List ℕ) → All (λ u. t ≤ u) ts → t ≤ m → All (λ u. t ≤ u) (ts ++ m ∷ [])
All-ge-append_one t m [] h l = (l, tt)
All-ge-append_one t m (u ∷ ts) h l = (h.0, All-ge-append_one t m ts h.1 l)

IsOrdered-append_one :
    (m : ℕ) (ts : List ℕ) → IsOrdered ts → All (λ t. t ≤ m) ts → IsOrdered (ts ++ m ∷ [])
IsOrdered-append_one m [] o h = (tt, tt)
IsOrdered-append_one m (t ∷ ts) o h =
    (All-ge-append_one t m ts o.0 h.0, IsOrdered-append_one m ts o.1 h.1)

-- A call is admitted only if fewer times than the limit are live.
pub live-lt-limit :
    (key : String) (limit window now : ℕ) (s : InMemoryRateLimiter)
    → (check key limit window now s).0.allowed ≡ true
    → length (prune now (max 1 window) (bucket_of key s.events)) < max 1 limit
unfolding check
live-lt-limit key limit window now s h = ground arith

prune-append_congr :
    (later window : ℕ) (xs ys new : List ℕ)
    → prune later window xs ≡ prune later window ys
    → prune later window (xs ++ new) ≡ prune later window (ys ++ new)
prune-append_congr later window xs ys new e =
    sym (prune_later-append later later window xs new (le_refl later))
    ∙ ap (λ zs. prune later window (zs ++ new)) e
    ∙ prune_later-append later later window ys new (le_refl later)

module _ (limit window : ℕ) (key : String) where
  step_bounded :
      (k : String) (clock now : ℕ) (past : List ℕ) (s : InMemoryRateLimiter)
      → Tracks limit window clock key past s
      → clock ≤ now
      → (b : Bool) → (check k limit window now s).0.allowed ≡ b
      → (last : ℕ) → count_in last (max 1 window) (past ++ added b k key now) ≤ max 1 limit
  step_bounded k clock now past s t h false a last = rw (append-nil past) (t.bounded last)
  step_bounded k clock now past s t h true a last = elim (Bool-cases (str_eq k key)) [
    | inr other ↦ rw (other, append-nil past) (t.bounded last)
    | inl same ↦
        let e : k ≡ key = (eq_iff k key).0 same in
        let admitted : (check key limit window now s).0.allowed ≡ true = rw e at a in
        ground (
          arith,
          filter-append (in_window last (max 1 window)) past (now ∷ []),
          length-append {0} (filter (in_window last (max 1 window)) past)
              (filter (in_window last (max 1 window)) (now ∷ [])),
          t.bounded last,
          count_in-le-live last now (max 1 window) past,
          prune-eq-filter now (max 1 window) past t.ordered,
          t.view now h,
          live-lt-limit key limit window now s admitted,
        )
  ]

  step-IsOrdered :
      (b : Bool) (k : String) (clock now : ℕ) (past : List ℕ)
      → IsOrdered past
      → All (λ t. t ≤ clock) past
      → clock ≤ now
      → IsOrdered (past ++ added b k key now) × All (λ t. t ≤ now) (past ++ added b k key now)
  step-IsOrdered b k clock now past o h l = ground (
    arith,
    append-nil past,
    IsOrdered-append_one now past o (All-mono clock now past h l),
    All-mono clock now past h l,
    All-append_one clock now past h l,
  )

  pub Tracks-check :
      (k : String) (clock now : ℕ) (past : List ℕ) (s : InMemoryRateLimiter)
      → Tracks limit window clock key past s
      → clock ≤ now
      → let (d, s') = check k limit window now s in
        Tracks limit window now key (past ++ added d.allowed k key now) s'
  Tracks-check k clock now past s t h =
      let (d, s') = check k limit window now s in
      let both = step-IsOrdered d.allowed k clock now past t.ordered t.past_clock h in
      record {
        dict = check-IsDict k limit window now s t.dict;
        ordered = both.0;
        past_clock = both.1;
        view = λ later l.
            prune-check k key limit window now later s t.dict l
            ∙ prune-append_congr later (max 1 window) (bucket_of key s.events) past
                (added d.allowed k key now) (t.view later (le_trans h l));
        bounded = step_bounded k clock now past s t h d.allowed refl;
      }
