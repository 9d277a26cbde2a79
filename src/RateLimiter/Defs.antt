-- ===== src/RateLimiter/Defs.antt =====
-- `RateLimiter`, its buckets and its operations.
use inferflux.Prelude.{
  ℕ, zero, suc, ◌+◌, ◌-◌, ◌*◌, ◌/◌, ◌==◌, Bool, true, false, not, ◌&&◌, ◌||◌, Option, none, some,
  List, [], ◌∷◌, ltb, if◌then◌else◌, min,
}
use inferflux.Prelude.Int.{ℤ, pos, leb_ℤ, ltb_ℤ, pos_part}
use inferflux.Prelude.Text.{Text, same}

pub data RequestClass : Type 0 where
  other generation embeddings : RequestClass

-- `static_cast<std::size_t>(request_class)`, and back.
abbrev pub class_index : RequestClass → ℕ
class_index other = 0
class_index generation = 1
class_index embeddings = 2

abbrev pub class_of : ℕ → RequestClass
class_of zero = other
class_of (suc zero) = generation
class_of (suc (suc i)) = embeddings

-- `RequestBucketPolicy`.
pub record BucketPolicy : Type 0 where
  pub requests_per_minute : ℤ
  pub burst : ℤ

-- `EndpointRateLimits`.
pub record EndpointLimits : Type 0 where
  pub generation_policy : Option BucketPolicy
  pub embeddings_policy : Option BucketPolicy

-- `EndpointRateLimits::Enabled`.
unfoldable pub has_endpoints : EndpointLimits → Bool
has_endpoints l = elim l.generation_policy [
  | some p ↦ true
  | none ↦ (elim l.embeddings_policy [ some p ↦ true | none ↦ false ])
]

-- One turn of the loop of `ValidateEndpointRateLimits`: whether it does not throw.
unfoldable pub is_valid_policy : Option BucketPolicy → Bool
is_valid_policy none = true
is_valid_policy (some p) = not (
    leb_ℤ p.requests_per_minute (pos 0)
    || leb_ℤ p.burst (pos 0)
    || ltb_ℤ p.requests_per_minute p.burst)

-- `ValidateEndpointRateLimits`.
unfoldable pub validate_endpoints : EndpointLimits → Bool
validate_endpoints l = is_valid_policy l.generation_policy && is_valid_policy l.embeddings_policy

pub record Decision : Type 0 where
  pub allowed : Bool
  pub endpoint_policy : Bool
  pub scope : RequestClass
  pub requests_per_minute : ℤ
  pub retry_after_seconds : ℕ

-- `Entry`.
pub record Bucket : Type 0 where
  pub tokens : ℕ
  pub last : ℕ

pub record Principal : Type 0 where
  pub buckets : List Bucket
  pub last : ℕ

pub record Limiter : Type 0 where
  pub tokens_per_minute : ℤ
  pub endpoints : EndpointLimits
  pub source : Text
  pub entries : List (Text × Principal)
  pub last_eviction : ℕ

-- The shares of one token, and a count of tokens in shares.
abbrev pub token : ℕ
token = 60_000_000_000

abbrev pub tokens_of : ℤ → ℕ
tokens_of n = token * pos_part n

-- The constructor, with none for `std::invalid_argument`.
unfoldable pub init : ℤ → EndpointLimits → Text → Option Limiter
init tokens_per_minute endpoints source =
    if not (validate_endpoints endpoints)
      || has_endpoints endpoints && leb_ℤ tokens_per_minute (pos 0)
    then none
    else some (record {
      tokens_per_minute = tokens_per_minute;
      endpoints = endpoints;
      source = source;
      entries = [];
      last_eviction = 0;
    })

-- The loop of `EvictStaleLocked`.
unfoldable pub evict_loop : ℕ → List (Text × Principal) → List (Text × Principal)
evict_loop now [] = []
evict_loop now ((k, p) ∷ es) =
    let rest = evict_loop now es in
    if ltb 120_000_000_000 (now - p.last) then rest else (k, p) ∷ rest

-- `EvictStaleLocked`.
unfoldable pub evict_stale : ℕ → Limiter → Limiter
evict_stale now m =
    if ltb (now - m.last_eviction) 60_000_000_000
    then m
    else record m { last_eviction = now; entries = evict_loop now m.entries }

-- The shared bucket's policy.
abbrev pub aggregate_policy : Limiter → BucketPolicy
aggregate_policy m = record {
  requests_per_minute = m.tokens_per_minute;
  burst = m.tokens_per_minute;
}

-- The array `policies` of `Admit`.
unfoldable pub policies : Limiter → List (Option BucketPolicy)
policies m =
    some (aggregate_policy m) ∷ m.endpoints.generation_policy ∷ m.endpoints.embeddings_policy ∷ []

-- The loop that fills the buckets of a new principal.
unfoldable pub full_buckets : ℕ → List (Option BucketPolicy) → List Bucket
full_buckets now [] = []
full_buckets now (none ∷ ps) = record { tokens = 0; last = now } ∷ full_buckets now ps
full_buckets now (some p ∷ ps) =
    record { tokens = tokens_of p.burst; last = now } ∷ full_buckets now ps

unfoldable pub find : Text → List (Text × Principal) → Option Principal
find key [] = none
find key ((k, p) ∷ es) = if same k key then some p else find key es

-- The buckets of a key as the loops of `Admit` find them.
unfoldable pub principal_buckets : ℕ → Text → Limiter → List Bucket
principal_buckets now key m = elim (find key m.entries) [
  | none ↦ full_buckets now (policies m)
  | some p ↦ p.buckets
]

-- The lambda `applies`.
unfoldable pub applies : ℕ → ℕ → Bool
applies endpoint i = i == 0 || i == endpoint

-- The refill of a bucket, `min(burst, tokens + elapsed * refill)`, in exact shares. The source's doubles
-- round: ten refills of a tenth of a token can sum to less than 1.0 there, and to a token here. The clock
-- is a steady one, so that `now` is not before `b.last` and `elapsed` is not negative.
unfoldable pub refill : ℕ → BucketPolicy → Bucket → Bucket
refill now p b = record {
  tokens = min (tokens_of p.burst) (b.tokens + pos_part p.requests_per_minute * (now - b.last));
  last = now;
}

-- `ceil((1.0 - bucket.tokens) / refill)`, for a rate above 0.
unfoldable pub retry_seconds : BucketPolicy → Bucket → ℕ
retry_seconds p b =
    let per_second = pos_part p.requests_per_minute * 1_000_000_000 in
    (token - b.tokens + (per_second - 1)) / per_second

-- What a bucket that was refilled makes of the decision.
unfoldable pub decide : ℕ → BucketPolicy → Bucket → Decision → Decision
decide i p b d =
    let retry = retry_seconds p b in
    let is_worse = d.allowed || ltb d.retry_after_seconds retry in
    if ltb b.tokens token
    then record d {
      allowed = false;
      scope = if is_worse then class_of i else d.scope;
      requests_per_minute = if is_worse then p.requests_per_minute else d.requests_per_minute;
      retry_after_seconds = if is_worse then retry else d.retry_after_seconds;
    }
    else d

-- The loop of `Admit` that refills: its buckets, and its decision.
unfoldable pub refill_loop : ℕ → ℕ → ℕ → List (Option BucketPolicy) → List Bucket → List Bucket
refill_loop now endpoint i [] bs = bs
refill_loop now endpoint i (p ∷ ps) [] = []
refill_loop now endpoint i (none ∷ ps) (b ∷ bs) = b ∷ refill_loop now endpoint (i + 1) ps bs
refill_loop now endpoint i (some p ∷ ps) (b ∷ bs) =
    (if applies endpoint i then refill now p b else b) ∷ refill_loop now endpoint (i + 1) ps bs

unfoldable pub decide_loop :
    ℕ → ℕ → ℕ → List (Option BucketPolicy) → List Bucket → Decision → Decision
decide_loop now endpoint i [] bs d = d
decide_loop now endpoint i (p ∷ ps) [] d = d
decide_loop now endpoint i (none ∷ ps) (b ∷ bs) d = decide_loop now endpoint (i + 1) ps bs d
decide_loop now endpoint i (some p ∷ ps) (b ∷ bs) d =
    decide_loop now endpoint (i + 1) ps bs
      (if applies endpoint i then decide i p (refill now p b) d else d)

-- The loop of `Admit` that debits.
unfoldable pub debit_loop : ℕ → ℕ → List (Option BucketPolicy) → List Bucket → List Bucket
debit_loop endpoint i [] bs = bs
debit_loop endpoint i (p ∷ ps) [] = []
debit_loop endpoint i (none ∷ ps) (b ∷ bs) = b ∷ debit_loop endpoint (i + 1) ps bs
debit_loop endpoint i (some p ∷ ps) (b ∷ bs) =
    (if applies endpoint i then record b { tokens = b.tokens - token } else b)
    ∷ debit_loop endpoint (i + 1) ps bs

-- The write of a principal through the iterator that `try_emplace` gave; where an unordered map puts a
-- new one is left open by the language, here it is the front.
unfoldable pub update : Text → Principal → List (Text × Principal) → List (Text × Principal)
update key x [] = []
update key x ((k, p) ∷ es) =
    let rest = update key x es in if same k key then (k, x) ∷ es else (k, p) ∷ rest

unfoldable pub assign : Text → Principal → List (Text × Principal) → List (Text × Principal)
assign key x es = elim (find key es) [ none ↦ (key, x) ∷ es | some p ↦ update key x es ]

abbrev pub open_decision : Limiter → Decision
open_decision m = record {
  allowed = true;
  endpoint_policy = has_endpoints m.endpoints;
  scope = other;
  requests_per_minute = pos 0;
  retry_after_seconds = 0;
}

-- What the two loops over the buckets leave, by the decision between them.
unfoldable pub spend : ℕ → ℕ → Bool → List (Option BucketPolicy) → List Bucket → List Bucket
spend now endpoint allowed ps bs =
    let refilled = refill_loop now endpoint 0 ps bs in
    if allowed then debit_loop endpoint 0 ps refilled else refilled

-- `Admit` where there is a limit, after `EvictStaleLocked`.
unfoldable pub admit_limited : ℕ → Text → RequestClass → Limiter → Limiter × Decision
admit_limited now key request_class m =
    let endpoint = class_index request_class in
    let buckets = principal_buckets now key m in
    let decision = decide_loop now endpoint 0 (policies m) buckets (open_decision m) in
    let principal : Principal = record {
      buckets = spend now endpoint decision.allowed (policies m) buckets;
      last = now;
    } in
    (record m { entries = assign key principal m.entries }, decision)

-- `Admit`.
unfoldable pub admit : ℕ → Text → RequestClass → Limiter → Limiter × Decision
admit now key request_class m =
    if leb_ℤ m.tokens_per_minute (pos 0)
    then (m, open_decision m)
    else admit_limited now key request_class (evict_stale now m)

-- `Allow`.
unfoldable pub allow : ℕ → Text → Limiter → Limiter × Bool
allow now key m = let (m', decision) = admit now key other m in (m', decision.allowed)

-- The loop of `UpdateLimit`.
unfoldable pub reset_aggregates : ℕ → ℤ → List (Text × Principal) → List (Text × Principal)
reset_aggregates now tokens_per_minute [] = []
reset_aggregates now tokens_per_minute ((k, p) ∷ es) =
    (k, record p { buckets = reset_first p.buckets }) ∷ reset_aggregates now tokens_per_minute es
  where
    reset_first : List Bucket → List Bucket
    reset_first [] = []
    reset_first (b ∷ bs) = record { tokens = tokens_of tokens_per_minute; last = now } ∷ bs

-- `UpdateLimit`, with none for `std::invalid_argument`.
unfoldable pub update_limit : ℕ → ℤ → Text → Limiter → Option Limiter
update_limit now tokens_per_minute source m =
    if has_endpoints m.endpoints && leb_ℤ tokens_per_minute (pos 0)
    then none
    else some (record m {
      tokens_per_minute = tokens_per_minute;
      source = source;
      entries =
          if has_endpoints m.endpoints
          then reset_aggregates now tokens_per_minute m.entries
          else [];
    })

-- `Enabled`.
unfoldable pub enabled : Limiter → Bool
enabled m = ltb_ℤ (pos 0) m.tokens_per_minute
