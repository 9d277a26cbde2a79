-- ===== src/RateLimiter/Rate.antt =====
-- How many requests of one key pass in a stretch of time.
use native.Mathlib.Nat.{mul-le-mul_left, mul-add}
use inferflux.Prelude.{
  ℕ, ◌+◌, ◌-◌, ◌*◌, ◌≤◌, ◌≡◌, refl, ap, ◌∙◌, Bool, true, false, not, ◌&&◌, ◌||◌, Option, none, some,
  List, [], ◌∷◌, leb, if◌then◌else◌, arith, inl, inr, Bool-cases, Option-cases,
}
use inferflux.Prelude.Int.{ℤ, pos, negsuc, leb_ℤ, ltb_ℤ, pos_part}
use inferflux.Prelude.Text.{Text, same, same_sound}
use inferflux.RateLimiter.Defs.{
  RequestClass, class_index, BucketPolicy, Bucket, EndpointLimits, Decision, Principal, Limiter,
  token, tokens_of, evict_stale, policies, aggregate_policy, find, admit_limited, admit, init,
  applies, is_valid_policy, validate_endpoints,
}
use inferflux.RateLimiter.Buckets.{available_in, less_token, has, AreSound, AreModest}
use inferflux.RateLimiter.Available.{available, IsSound}
use inferflux.RateLimiter.Admission.{admit-available, admit-IsSound}
use inferflux.RateLimiter.Principals.{find-AllSound}

-- A request: when it comes, whose it is and of which class.
pub record Request : Type 0 where
  pub at_time : ℕ
  pub key : Text
  pub class : RequestClass

unfoldable pub run : List Request → Limiter → Limiter
run [] m = m
run (r ∷ rs) m = run rs (admit r.at_time r.key r.class m).0

-- The requests of a key that are allowed.
unfoldable pub allowed_count : Text → List Request → Limiter → ℕ
allowed_count key [] m = 0
allowed_count key (r ∷ rs) m =
    let (m', d) = admit r.at_time r.key r.class m in
    (if same r.key key && d.allowed then 1 else 0) + allowed_count key rs m'

-- Requests in the order of time, from a time on; and the time of the last of them.
abbrev pub Chronological : ℕ → List Request → Type 0
Chronological t [] = Unit {0}
Chronological t (r ∷ rs) = (t ≤ r.at_time) × Chronological r.at_time rs

abbrev pub last_time : ℕ → List Request → ℕ
last_time t [] = t
last_time t (r ∷ rs) = last_time r.at_time rs

-- The shares in the shared bucket of a key.
abbrev shares : Option ℕ → ℕ
shares none = 0
shares (some n) = n

grown :
    (t now : ℕ) (p : BucketPolicy) (b : Bucket)
    → t ≤ now
    → available_in now p b ≤ available_in t p b + pos_part p.requests_per_minute * (now - t)
grown t now p b le =
    let r = pos_part p.requests_per_minute in
    let later : now - b.last ≤ t - b.last + (now - t) = omega arith in
    omega (arith, mul-le-mul_left r later, mul-add r (t - b.last) (now - t))

-- The shared bucket of a key at two times.
record Grows (t now : ℕ) (key : Text) (m : Limiter) : Type 0 where
  pub has_bucket : (n : ℕ) × (available now key 0 m ≡ some n)
  pub bounded : shares (available now key 0 m) ≤ tokens_of m.tokens_per_minute
  pub growth :
      shares (available now key 0 m)
      ≤ shares (available t key 0 m) + pos_part m.tokens_per_minute * (now - t)

shared-Grows :
    (time t now : ℕ) (key : Text) (m : Limiter) → IsSound time m → t ≤ now → Grows t now key m
unfolding policies
shared-Grows time t now key m s le = elim (Option-cases (find key m.entries)) [
  | inl n ↦ record {
    has_bucket = (tokens_of m.tokens_per_minute, ground arith);
    bounded = ground arith;
    growth = ground arith;
  }
  | inr (p, f) ↦
      with_buckets p f p.buckets refl
        (find-AllSound time (policies m) key p m.entries s.all_sound f).0
]
  where
    with_buckets :
        (p : Principal)
        → find key m.entries ≡ some p
        → (bs : List Bucket) → p.buckets ≡ bs
        → AreSound p.last (policies m) bs
        → Grows t now key m
    with_buckets p f [] e sound = absurd sound
    with_buckets p f (b ∷ bs) e sound = record {
      has_bucket = (available_in now (aggregate_policy m) b, ground arith);
      bounded = ground arith;
      growth = ground (arith, grown t now (aggregate_policy m) b le);
    }

admit-limit :
    (now : ℕ) (key : Text) (c : RequestClass) (m : Limiter)
    → (admit now key c m).0.tokens_per_minute ≡ m.tokens_per_minute
unfolding admit admit_limited evict_stale
admit-limit now key c m = ground arith

admit-shares :
    (now time : ℕ) (r : Request) (key : Text) (m : Limiter)
    → IsSound time m
    → leb_ℤ m.tokens_per_minute (pos 0) ≡ false
    → Grows now now key m
    → let (m', d) = admit now r.key r.class m in
      token * (if same r.key key && d.allowed then 1 else 0) + shares (available now key 0 m')
      ≤ shares (available now key 0 m)
unfolding applies
admit-shares now time r key m s limited g =
    let (a, d) = admit-available now time r.key r.class m key 0 s limited in
    let (n, q) = g.has_bucket in
    elim (Bool-cases (same r.key key)) [
      | inr o ↦ ground (arith, d)
      | inl t ↦
          let q' : available now r.key 0 m ≡ some n =
            ap (λ k. available now k 0 m) (same_sound r.key key t) ∙ q in
          let b = has (available now r.key (class_index r.class) m) in
          go n b (admit now r.key r.class m) t (a ∙ ap (λ x. has x && b) q')
            (d
              ∙ ap
                  (λ x.
                    if same r.key key && (admit now r.key r.class m).1.allowed && true
                    then less_token x
                    else x)
                  q)
            q
    ]
  where
    go :
        (n : ℕ) (b : Bool) (md : Limiter × Decision)
        → same r.key key ≡ true
        → md.1.allowed ≡ (leb token n && b)
        → available now key 0 md.0
          ≡ (if same r.key key && md.1.allowed && true then some (n - token) else some n)
        → available now key 0 m ≡ some n
        → token * (if same r.key key && md.1.allowed then 1 else 0)
            + shares (available now key 0 md.0)
          ≤ shares (available now key 0 m)
    go n b md t a d q = ground (arith, ap shares d, ap shares q)

last_time-late : (t : ℕ) (rs : List Request) → Chronological t rs → t ≤ last_time t rs
last_time-late t [] o = omega arith
last_time-late t (r ∷ rs) o = omega (arith, last_time-late r.at_time rs o.1)

-- The count so far, in shares, with what is left, within what was there and what time has earned.
run-balance :
    (key : Text) (rs : List Request) (t : ℕ) (m : Limiter) (rate : ℕ)
    → Chronological t rs
    → IsSound t m
    → leb_ℤ m.tokens_per_minute (pos 0) ≡ false
    → pos_part m.tokens_per_minute ≡ rate
    → token * allowed_count key rs m ≤ shares (available t key 0 m) + rate * (last_time t rs - t)
unfolding allowed_count
run-balance key [] t m rate ordered s limited e = omega arith
run-balance key (r ∷ rs) t m rate ordered s limited e =
    let now = r.at_time in
    let m' = (admit now r.key r.class m).0 in
    let same_limit = admit-limit now r.key r.class m in
    let rest =
      run-balance key rs now m' rate ordered.1
        (admit-IsSound now t r.key r.class m ordered.0 s limited)
        (ap (λ n. leb_ℤ n (pos 0)) same_limit ∙ limited) (ap pos_part same_limit ∙ e) in
    let grow = shared-Grows t t now key m s ordered.0 in
    let paid =
      admit-shares now t r key m s limited (shared-Grows t now now key m s (omega arith)) in
    let late = last_time-late now rs ordered.1 in
    let split : last_time now rs - t ≡ last_time now rs - now + (now - t) = omega arith in
    let apart = ap (λ n. rate * n) split ∙ mul-add rate (last_time now rs - now) (now - t) in
    let earned = rw e at grow.growth in
    let x : ℕ = if same r.key key && (admit now r.key r.class m).1.allowed then 1 else 0 in
    omega (arith, mul-add token x (allowed_count key rs m'), rest, paid, earned, apart)

-- Whatever the traffic of the other keys and the evictions, in any sequence of admissions in the order of
-- time, a key gets no more requests allowed than the limit at once and the limit per minute from then on:
-- counted in shares of a token, 60,000,000,000 for each request, of which each nanosecond earns as many
-- as the limit per minute. The limiter is sound and its limit above 0.
pub allowed_count-bounded :
    (key : Text) (rs : List Request) (t : ℕ) (m : Limiter)
    → Chronological t rs
    → IsSound t m
    → leb_ℤ m.tokens_per_minute (pos 0) ≡ false
    → token * allowed_count key rs m
      ≤ tokens_of m.tokens_per_minute + pos_part m.tokens_per_minute * (last_time t rs - t)
allowed_count-bounded key rs t m ordered s limited = omega (
  arith,
  run-balance key rs t m (pos_part m.tokens_per_minute) ordered s limited refl,
  (shared-Grows t t t key m s (omega arith)).bounded,
)

modest-rate :
    (rate burst : ℤ)
    → not (leb_ℤ rate (pos 0) || leb_ℤ burst (pos 0) || ltb_ℤ rate burst) ≡ true
    → pos_part burst ≤ pos_part rate
modest-rate (pos r) (pos b) v = ground arith
modest-rate (pos r) (negsuc b) v = omega arith
modest-rate (negsuc r) (pos b) v = ground arith
modest-rate (negsuc r) (negsuc b) v = omega arith

cons-AreModest :
    (p : Option BucketPolicy) (ps : List (Option BucketPolicy))
    → is_valid_policy p ≡ true
    → AreModest ps
    → AreModest (p ∷ ps)
unfolding is_valid_policy
cons-AreModest none ps v m = m
cons-AreModest (some p) ps v m = (modest-rate p.requests_per_minute p.burst v, m)

-- A limiter that the constructor makes is sound at any time.
pub init-IsSound :
    (tokens_per_minute : ℤ) (endpoints : EndpointLimits) (source : Text) (m : Limiter) (t : ℕ)
    → init tokens_per_minute endpoints source ≡ some m
    → IsSound t m
unfolding init policies validate_endpoints
init-IsSound n endpoints source m t h =
    let no_entries : m.entries ≡ [] = ground arith in
    let g : is_valid_policy m.endpoints.generation_policy ≡ true = ground arith in
    let e : is_valid_policy m.endpoints.embeddings_policy ≡ true = ground arith in
    record {
      modest = (
        omega arith,
        cons-AreModest m.endpoints.generation_policy _ g
            (cons-AreModest m.endpoints.embeddings_policy [] e tt),
      );
      all_sound = rw no_entries tt;
    }
