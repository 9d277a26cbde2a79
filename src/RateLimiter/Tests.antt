-- ===== src/RateLimiter/Tests.antt =====
-- Runs of the rate limiter on small inputs, and its theorems at such inputs.
use inferflux.Prelude.{ℕ, ◌+◌, ◌-◌, ◌*◌, ◌≤◌, ◌≡◌, refl, none, some, List, [], ◌∷◌, arith}
use inferflux.Prelude.Int.{pos}
use inferflux.Prelude.Text.{Text}
use inferflux.RateLimiter.Defs.{
  other, generation, embeddings, EndpointLimits, Limiter, token, tokens_of, init, admit, admit,
  evict_stale, validate_endpoints, is_valid_policy, has_endpoints, retry_seconds,
}
use inferflux.RateLimiter.Available.{available, IsSound, evict_stale-available}
use inferflux.RateLimiter.Admission.{admit-IsSound}
use inferflux.RateLimiter.Rate.{Request, allowed_count, init-IsSound, allowed_count-bounded}

-- 60 requests a minute in all, and for generation 30 in bursts of 2.
abbrev limits : EndpointLimits
limits = record {
  generation_policy = some (record { requests_per_minute = pos 30; burst = pos 2 });
  embeddings_policy = none;
}

abbrev limiter : Limiter
limiter = record {
  tokens_per_minute = pos 60;
  endpoints = limits;
  source = [];
  entries = [];
  last_eviction = 0;
}

limiter-IsSound : (t : ℕ) → IsSound t limiter
unfolding init validate_endpoints is_valid_policy has_endpoints
limiter-IsSound t = init-IsSound (pos 60) limits [] limiter t refl

abbrev key : Text
key = 107 ∷ []

-- Half a token is missing, which 60 requests a minute earn in half a second.
retry_is_rounded_up :
    retry_seconds
      (record { requests_per_minute = pos 60; burst = pos 60 })
      (record { tokens = 30_000_000_000; last = 0 })
    ≡ 1
unfolding retry_seconds
retry_is_rounded_up = refl

abbrev used : Limiter
used = (admit 5 key generation limiter).0

used-IsSound : IsSound 5 used
used-IsSound = admit-IsSound 5 5 key generation limiter (omega arith) (limiter-IsSound 5) refl

evict_stale-available_example :
    available 200_000_000_000 key 1 (evict_stale 200_000_000_000 used)
    ≡ available 200_000_000_000 key 1 used
evict_stale-available_example = evict_stale-available 200_000_000_000 5 key 1 used used-IsSound

abbrev requests : List Request
requests =
    record { at_time = 5; key = key; class = generation }
    ∷ record { at_time = 6; key = key; class = other }
    ∷ record { at_time = 1_000_000_005; key = key; class = embeddings }
    ∷ []

allowed_count-bounded_example :
    token * allowed_count key requests limiter ≤ tokens_of (pos 60) + 60 * (1_000_000_005 - 5)
allowed_count-bounded_example =
    allowed_count-bounded key requests 5 limiter (omega arith, (omega arith, (omega arith, tt)))
      (limiter-IsSound 5) refl
