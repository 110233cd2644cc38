-- ===== src/RateLimit/Replicas.antt =====
-- Runs of requests through the shared limiter, compared with those through the limiter in memory.
use lineagelens.Prelude.{
  ℕ, ◌*◌, ◌≤◌, max, String, ◌≡◌, refl, ap, sym, ◌∙◌, false, List, [], ◌∷◌, ◌++◌, arith, ltb, str_eq,
  All,
}
use lineagelens.RateLimit.{second, init}
use lineagelens.RateLimit.Window.{added}
use lineagelens.RateLimit.Tracks.{count_in}
use lineagelens.RateLimit.Bounds.{Requests, InOrder, serve, sliding_log, serve-eq-sliding_log}
use lineagelens.RateLimit.Shared.{SortedSets, Documented, acheck}
use lineagelens.RateLimit.Sets.{Call, member_of, IsFresh, absent-pruned, IsFresh-acheck}
use lineagelens.RateLimit.Calls.{Stands, Stands-acheck, same_decision, Stands-empty}

abbrev pub requests_of : List Call → Requests
requests_of [] = []
requests_of (c ∷ calls) = (c.key, c.now) ∷ requests_of calls

InOrder-zero : (start : ℕ) (requests : Requests) → InOrder start requests → InOrder 0 requests
InOrder-zero start [] o = tt
InOrder-zero start ((k, now) ∷ rest) o = (omega arith, o.1)

module _ {S : Type 0} (r : SortedSets S) (doc : Documented S r) (key_prefix : String)
    (text_of : ℕ → String) (limit window : ℕ) where
  -- The times at which the calls of `key` were admitted.
  unfoldable pub serve_shared : String → List Call → S → List ℕ
  unfolding acheck
  serve_shared key [] s = []
  serve_shared key (c ∷ calls) s =
      let (d, s') = acheck r key_prefix text_of c.key limit window c.now c.token s in
      added d.allowed c.key key c.now ++ serve_shared key calls s'

  -- No two calls have the same member.
  abbrev pub AllDistinct : List Call → Type 0
  AllDistinct [] = Unit
  AllDistinct (c ∷ calls) =
      All (λ d. str_eq (member_of text_of c) (member_of text_of d) ≡ false) calls
      × AllDistinct calls

  serve_shared-eq-log :
      (key : String) (clock : ℕ) (past : List ℕ) (calls : List Call) (s : S)
      → Stands r doc key_prefix text_of limit window key clock past s
      → IsFresh doc text_of calls s
      → AllDistinct calls
      → max 1 window * second ≤ clock
      → InOrder clock (requests_of calls)
      → serve_shared key calls s
        ≡ sliding_log (max 1 limit) (max 1 window) key past (requests_of calls)
  unfolding serve_shared sliding_log
  serve_shared-eq-log key clock past [] s f fresh apart h o = refl
  serve_shared-eq-log key clock past (c ∷ calls) s f fresh apart h o =
      let (d, s') = acheck r key_prefix text_of c.key limit window c.now c.token s in
      let late : max 1 window * second ≤ c.now = omega (arith, h, o.0) in
      let e = same_decision r doc key_prefix text_of limit window c key clock past s f o.0 late in
      ap (λ new. new ++ serve_shared key calls s') e
      ∙ ap
          (λ later.
            added (ltb (count_in c.now (max 1 window) past) (max 1 limit)) c.key key c.now ++ later)
          (serve_shared-eq-log key c.now (past ++ added d.allowed c.key key c.now) calls s'
              (Stands-acheck r doc key_prefix text_of limit window c key clock past s
                (absent-pruned r doc key_prefix text_of limit window c (member_of text_of c) s
                  fresh.0)
                f o.0 late)
              (IsFresh-acheck r doc key_prefix text_of limit window c calls s apart.0 fresh.1)
              apart.1 late o.1
            ∙ ap
                (λ new.
                  sliding_log (max 1 limit) (max 1 window) key (past ++ new) (requests_of calls))
                e)

  -- From a store that has no times and none of the members, and with a clock that is past the first
  -- window: for any calls in clock order, each with a member of its own, with one limit and one
  -- window, and for any key, the replicas that share the store admit the same times as one limiter
  -- in memory that gets all the calls.
  pub serve_shared-eq-serve :
      (m start : ℕ) (key : String) (calls : List Call) (s : S)
      → ((k : String) → doc.scores k s ≡ [])
      → IsFresh doc text_of calls s
      → AllDistinct calls
      → max 1 window * second ≤ start
      → InOrder start (requests_of calls)
      → serve_shared key calls s ≡ serve limit window key (requests_of calls) (init m)
  serve_shared-eq-serve m start key calls s empty fresh apart late o =
      serve_shared-eq-log key start [] calls s
        (Stands-empty r doc key_prefix text_of limit window key start s empty) fresh apart late o
      ∙ sym (
          serve-eq-sliding_log limit window m key (requests_of calls)
            (InOrder-zero start (requests_of calls) o))
