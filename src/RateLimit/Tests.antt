-- ===== src/RateLimit/Tests.antt =====
-- Runs of the limiter, and instances of its theorems.
use lineagelens.Prelude.{some, str_eq, if◌then◌else◌, ◌≤◌, ◌≡◌, refl, true, false, [], ◌∷◌, arith}
use lineagelens.RateLimit.{
  InMemoryRateLimiter, init, bucket_of, put_bucket, prune, check, compact_if_necessary,
}
use lineagelens.RateLimit.Bounds.{Requests, serve, sliding_log, serve_bounded, serve-eq-sliding_log}
use lineagelens.RateLimit.Tracks.{count_in}
use lineagelens.RateLimit.Retry.{retry_admitted}
use lineagelens.RateLimit.ClientIp.{
  Splitting, client_identifier, effective_client_ip, effective_client_ip_unspoofed, entries,
  parse_trusted_proxy_ips,
}

abbrev requests : Requests
requests =
    ("a", 1_000_000)
    ∷ ("a", 2_000_000)
    ∷ ("b", 2_500_000)
    ∷ ("a", 3_000_000)
    ∷ ("a", 11_000_000)
    ∷ []

-- Two in ten seconds: the fourth is refused, the fifth comes as the first leaves the window.
served : serve 2 10 "a" requests (init 0) ≡ 1_000_000 ∷ 2_000_000 ∷ 11_000_000 ∷ []
unfolding serve check bucket_of put_bucket prune init compact_if_necessary
served = refl

serve_bounded_example : count_in 5_000_000 10 (serve 2 10 "a" requests (init 0)) ≤ 2
serve_bounded_example = serve_bounded 2 10 0 "a" requests 5_000_000 (omega arith)

serve-eq-sliding_log_example : serve 2 10 "a" requests (init 0) ≡ sliding_log 2 10 "a" [] requests
serve-eq-sliding_log_example = serve-eq-sliding_log 2 10 0 "a" requests (omega arith)

-- One request a second; one was admitted at 1.2 s.
abbrev busy : InMemoryRateLimiter
busy = record { events = ("a", 1_200_000 ∷ []) ∷ []; max_tracked_keys = 1000 }

refused : (check "a" 1 2 2_000_000 busy).0.allowed ≡ false
unfolding check bucket_of prune
refused = refl

-- The advised second is not enough: at 3.0 s the time of 1.2 s is still in the window.
advised_too_early :
    let (d, s) = check "a" 1 2 2_000_000 busy in
    (d.retry_after_seconds ≡ 1) × ((check "a" 1 2 3_000_000 s).0.allowed ≡ false)
unfolding check bucket_of put_bucket prune
advised_too_early = (refl, refl)

-- A request of another key with a window of one second empties the bucket of `a` in a crowded
-- limiter, although the requests of `a` are counted over a minute.
abbrev crowded : InMemoryRateLimiter
crowded = record { events = ("a", 1_000_000 ∷ []) ∷ ("b", []) ∷ []; max_tracked_keys = 1 }

compaction_forgets :
    ((check "a" 1 60 3_000_000 crowded).0.allowed ≡ false)
    × ((check "a" 1 60 3_000_000 (check "b" 5 1 2_000_000 crowded).1).0.allowed ≡ true)
unfolding check bucket_of put_bucket prune compact_if_necessary
compaction_forgets = (refl, refl)

retry_admitted_example :
    (1 ≤ (check "a" 1 2 2_000_000 busy).0.retry_after_seconds)
    × ((check "a" 1 2 4_000_000 (check "a" 1 2 2_000_000 busy).1).0.allowed ≡ true)
unfolding check bucket_of prune
retry_admitted_example =
    retry_admitted "a" 1 2 2_000_000 4_000_000 busy (omega arith) refused (omega arith)

abbrev splitting : Splitting
splitting = record {
  strip = λ s. s;
  split = λ s. if str_eq s "spoof,client,proxy" then "spoof" ∷ "client" ∷ "proxy" ∷ [] else s ∷ [];
}

effective_client_ip_unspoofed_example :
    effective_client_ip splitting (some "proxy") "spoof,client,proxy" "" (some "proxy")
    ≡ client_identifier splitting (some "client")
unfolding parse_trusted_proxy_ips entries
effective_client_ip_unspoofed_example =
    effective_client_ip_unspoofed splitting (some "proxy") (some "proxy") "spoof,client,proxy" ""
      "client" ("proxy" ∷ []) ("spoof" ∷ []) refl refl refl (refl, tt) refl
