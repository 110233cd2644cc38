-- ===== src/RateLimit/SharedTests.antt =====
-- A store in memory that does what Redis documents, and a run of the shared limiter on it.
use lineagelens.Prelude.{
  ℕ, ◌+◌, ◌*◌, String, ◌≡◌, refl, List, [], ◌∷◌, ◌++◌, arith, eq_iff, leb, str_eq, if◌then◌else◌,
  length, filter, any,
}
use lineagelens.RateLimit.{second, init}
use lineagelens.RateLimit.Bounds.{serve}
use lineagelens.RateLimit.Shared.{
  SortedSets, Documented, first?, is_above, acheck, sliding_window, decision_of,
}
use lineagelens.RateLimit.Sets.{Call}
use lineagelens.RateLimit.Replicas.{requests_of, serve_shared, serve_shared-eq-serve}

-- The scores and the end of each key, and the members so far.
record Store : Type 0 where
  scores_of : String → List ℕ
  ends : String → ℕ
  members : List String

abbrev in_memory : SortedSets Store
in_memory = record {
  at = λ now s. record s { scores_of = λ k. if leb (s.ends k) now then [] else s.scores_of k };
  zremrangebyscore = λ k bound s. record s {
    scores_of = λ j. if str_eq k j then filter (is_above bound) (s.scores_of j) else s.scores_of j;
  };
  zcard = λ k s. length (s.scores_of k);
  oldest = λ k s. first? (s.scores_of k);
  zadd = λ k now m s. record s {
    scores_of = λ j. if str_eq k j then s.scores_of j ++ now ∷ [] else s.scores_of j;
    members = m ∷ s.members;
  };
  expire = λ k now seconds s. record s {
    ends = λ j. if str_eq k j then now + seconds * second else s.ends j;
  };
}

abbrev documented : Documented Store in_memory
documented = record {
  scores = λ k s. s.scores_of k;
  has = λ k m s. any (λ n. str_eq n m) s.members;
  deadline = λ k s. s.ends k;
  scores-at = λ now k s. refl;
  deadline-at = λ now k s. refl;
  has-at = λ now k m s h. h;
  scores-zrem = λ k j bound s. refl;
  deadline-zrem = λ k j bound s. refl;
  has-zrem = λ k j m bound s h. h;
  zcard-length = λ k s. refl;
  oldest-first = λ k s. refl;
  scores-zadd = λ k m now s h l. rw ((eq_iff k k).1 refl) refl;
  scores-zadd_other = λ k j m now s h. rw h refl;
  deadline-zadd_other = λ k j m now s h. refl;
  has-zadd = λ k j m n now s h l. rw (h, l) refl;
  scores-expire = λ k j now seconds s. refl;
  has-expire = λ k j m now seconds s h. h;
  deadline-expire = λ k j now seconds s. refl;
}

abbrev empty : Store
empty = record { scores_of = λ k. []; ends = λ k. 0; members = [] }

-- Two replicas; the second and the third call come at the same moment.
abbrev calls : List Call
calls =
    record { key = "a"; now = 20_000_000; token = "00" }
    ∷ record { key = "a"; now = 21_000_000; token = "01" }
    ∷ record { key = "b"; now = 21_000_000; token = "02" }
    ∷ record { key = "a"; now = 22_000_000; token = "03" }
    ∷ record { key = "a"; now = 30_000_000; token = "04" }
    ∷ []

-- Two in ten seconds: the fourth call is refused, the fifth comes as the first leaves the window.
served :
    serve_shared in_memory documented "rl:" (λ n. "t") 2 10 "a" calls empty
    ≡ 20_000_000 ∷ 21_000_000 ∷ 30_000_000 ∷ []
unfolding serve_shared acheck sliding_window decision_of
served = refl

serve_shared-eq-serve_example :
    serve_shared in_memory documented "rl:" (λ n. "t") 2 10 "a" calls empty
    ≡ serve 2 10 "a" (requests_of calls) (init 0)
serve_shared-eq-serve_example =
    serve_shared-eq-serve in_memory documented "rl:" (λ n. "t") 2 10 0 10_000_000 "a" calls empty
      (λ k. refl) ((λ j. refl), ((λ j. refl), ((λ j. refl), ((λ j. refl), ((λ j. refl), tt)))))
      (
        (refl, (refl, (refl, (refl, tt)))),
        ((refl, (refl, (refl, tt))), ((refl, (refl, tt)), ((refl, tt), (tt, tt)))),
      )
      (omega arith) (omega arith)
