-- ===== src/RateLimit/Bounds.antt =====
-- Every run of requests with one limit and one window, from an empty limiter.
use mathlib.Core.List.{append-nil, append_assoc}
use lineagelens.Prelude.{
  ℕ, ◌≤◌, max, String, ◌≡◌, refl, sym, ap, ◌∙◌, List, [], ◌∷◌, ◌++◌, arith, eq_iff, ltb, str_eq,
  length, filter, All, Bool-cases, inl, inr,
}
use lineagelens.RateLimit.{InMemoryRateLimiter, init, bucket_of, prune, check}
use lineagelens.RateLimit.Prune.{is_live, prune-eq-filter}
use lineagelens.RateLimit.Window.{added}
use lineagelens.RateLimit.Tracks.{Tracks, Tracks-check, count_in, All-mono}

-- Requests as the clock orders them, and the times at which those of `key` were admitted.
abbrev pub Requests : Type 0
Requests = List (String × ℕ)

unfoldable pub serve : ℕ → ℕ → String → Requests → InMemoryRateLimiter → List ℕ
serve limit window key [] s = []
serve limit window key ((k, now) ∷ rest) s =
    let (d, s') = check k limit window now s in
    added d.allowed k key now ++ serve limit window key rest s'

abbrev pub InOrder : ℕ → Requests → Type 0
InOrder clock [] = Unit
InOrder clock ((k, now) ∷ rest) = (clock ≤ now) × InOrder now rest

Tracks-init : (limit window m : ℕ) (key : String) → Tracks limit window 0 key [] (init m)
unfolding init bucket_of
Tracks-init limit window m key = record {
  dict = tt;
  ordered = tt;
  past_clock = tt;
  view = λ now h. refl;
  bounded = λ last. omega arith;
}

-- A run keeps the bound that its past has.
run_bounded :
    (limit window clock : ℕ) (key : String) (past : List ℕ) (requests : Requests)
    (s : InMemoryRateLimiter)
    → Tracks limit window clock key past s
    → InOrder clock requests
    → (last : ℕ)
    → count_in last (max 1 window) (past ++ serve limit window key requests s) ≤ max 1 limit
unfolding serve
run_bounded limit window clock key past [] s t h last = rw (append-nil past) (t.bounded last)
run_bounded limit window clock key past ((k, now) ∷ rest) s t h last =
    let (d, s') = check k limit window now s in
    rw (← append_assoc past (added d.allowed k key now) (serve limit window key rest s')) (
      run_bounded limit window now key (past ++ added d.allowed k key now) rest s'
        (Tracks-check limit window key k clock now past s t h.0) h.1 last)

-- For any requests in clock order, with one limit and one window, and for any key and any moment:
-- at most `max 1 limit` requests of the key are admitted in the window that ends at the moment.
pub serve_bounded :
    (limit window m : ℕ) (key : String) (requests : Requests) (last : ℕ)
    → InOrder 0 requests
    → count_in last (max 1 window) (serve limit window key requests (init m)) ≤ max 1 limit
serve_bounded limit window m key requests last h =
    run_bounded limit window 0 key [] requests (init m) (Tracks-init limit window m key) h last

-- The contract: a sliding log of one key that keeps every admitted time, and admits a request while
-- fewer than the limit lie in the window that ends at it.
unfoldable pub sliding_log : ℕ → ℕ → String → List ℕ → Requests → List ℕ
sliding_log limit window key past [] = []
sliding_log limit window key past ((k, now) ∷ rest) =
    let new = added (ltb (count_in now window past) limit) k key now in
    new ++ sliding_log limit window key (past ++ new) rest

pub count_in-eq-live :
    (now window : ℕ) (ts : List ℕ)
    → All (λ t. t ≤ now) ts
    → count_in now window ts ≡ length (filter (is_live now window) ts)
count_in-eq-live now window [] h = refl
count_in-eq-live now window (t ∷ ts) h = ground (arith, count_in-eq-live now window ts h.1)

check-allowed :
    (key : String) (limit window now : ℕ) (s : InMemoryRateLimiter)
    → (check key limit window now s).0.allowed
      ≡ ltb (length (prune now (max 1 window) (bucket_of key s.events))) (max 1 limit)
unfolding check
check-allowed key limit window now s = ground arith

-- The limiter admits by the live times of its bucket; the log by those of the whole past.
same_decision :
    (limit window clock now : ℕ) (key : String) (past : List ℕ) (s : InMemoryRateLimiter)
    → Tracks limit window clock key past s
    → clock ≤ now
    → (check key limit window now s).0.allowed
      ≡ ltb (count_in now (max 1 window) past) (max 1 limit)
same_decision limit window clock now key past s t h =
    check-allowed key limit window now s
    ∙ ap (λ ts. ltb (length ts) (max 1 limit))
        (t.view now h ∙ prune-eq-filter now (max 1 window) past t.ordered)
    ∙ ap (λ n. ltb n (max 1 limit))
        (sym (count_in-eq-live now (max 1 window) past (All-mono clock now past t.past_clock h)))

same_added :
    (limit window clock now : ℕ) (k key : String) (past : List ℕ) (s : InMemoryRateLimiter)
    → Tracks limit window clock key past s
    → clock ≤ now
    → added (check k limit window now s).0.allowed k key now
      ≡ added (ltb (count_in now (max 1 window) past) (max 1 limit)) k key now
same_added limit window clock now k key past s t h = elim (Bool-cases (str_eq k key)) [
  | inl same ↦
      rw ((eq_iff k key).0 same)
        (ap (λ b. added b key key now) (same_decision limit window clock now key past s t h))
  | inr other ↦ ground arith
]

run-eq-log :
    (limit window clock : ℕ) (key : String) (past : List ℕ) (requests : Requests)
    (s : InMemoryRateLimiter)
    → Tracks limit window clock key past s
    → InOrder clock requests
    → serve limit window key requests s ≡ sliding_log (max 1 limit) (max 1 window) key past requests
unfolding serve sliding_log
run-eq-log limit window clock key past [] s t h = refl
run-eq-log limit window clock key past ((k, now) ∷ rest) s t h =
    let (d, s') = check k limit window now s in
    let e = same_added limit window clock now k key past s t h.0 in
    ap (λ new. new ++ serve limit window key rest s') e
    ∙ ap (λ later. added (ltb (count_in now (max 1 window) past) (max 1 limit)) k key now ++ later)
        (run-eq-log limit window now key (past ++ added d.allowed k key now) rest s'
            (Tracks-check limit window key k clock now past s t h.0) h.1
          ∙ ap (λ new. sliding_log (max 1 limit) (max 1 window) key (past ++ new) rest) e)

-- For any requests in clock order with one limit and one window, and for any key, the limiter, with
-- its pruning, its compaction and its other keys, admits the same times as a log of that key alone
-- that forgets nothing.
pub serve-eq-sliding_log :
    (limit window m : ℕ) (key : String) (requests : Requests)
    → InOrder 0 requests
    → serve limit window key requests (init m)
      ≡ sliding_log (max 1 limit) (max 1 window) key [] requests
serve-eq-sliding_log limit window m key requests h =
    run-eq-log limit window 0 key [] requests (init m) (Tracks-init limit window m key) h
