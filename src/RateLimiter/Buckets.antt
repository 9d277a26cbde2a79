-- ===== src/RateLimiter/Buckets.antt =====
-- The loops of `Admit` over the buckets of one principal.
use native.Mathlib.Nat.{mul-le-mul_left, mul-zero}
use inferflux.Prelude.{
  ℕ, zero, suc, ◌+◌, ◌-◌, ◌*◌, ◌≤◌, ◌<◌, ◌≡◌, refl, ap, ◌∙◌, Bool, true, not, ◌&&◌, ◌||◌, Option,
  none, some, List, [], ◌∷◌, leb, if◌then◌else◌, min, arith, ◌⊎◌, inl, inr,
}
use inferflux.Prelude.Int.{pos_part}
use inferflux.RateLimiter.Defs.{
  BucketPolicy, Bucket, Decision, token, tokens_of, refill, applies, decide, refill_loop,
  decide_loop, debit_loop, full_buckets,
}

-- The shares that a bucket would hold after a refill.
abbrev pub available_in : ℕ → BucketPolicy → Bucket → ℕ
available_in now p b =
    min (tokens_of p.burst) (b.tokens + pos_part p.requests_per_minute * (now - b.last))

abbrev pub available_lane : ℕ → Option BucketPolicy → Bucket → Option ℕ
available_lane now none b = none
available_lane now (some p) b = some (available_in now p b)

abbrev pub available_at : ℕ → List (Option BucketPolicy) → List Bucket → ℕ → Option ℕ
available_at now [] bs i = none
available_at now (p ∷ ps) [] i = none
available_at now (p ∷ ps) (b ∷ bs) zero = available_lane now p b
available_at now (p ∷ ps) (b ∷ bs) (suc i) = available_at now ps bs i

-- The shares that a full bucket holds.
abbrev pub full_at : List (Option BucketPolicy) → ℕ → Option ℕ
full_at [] i = none
full_at (none ∷ ps) zero = none
full_at (some p ∷ ps) zero = some (tokens_of p.burst)
full_at (p ∷ ps) (suc i) = full_at ps i

abbrev pub less_token : Option ℕ → Option ℕ
less_token none = none
less_token (some n) = some (n - token)

elapsed_zero : (now n : ℕ) → n * (now - now) ≡ 0
elapsed_zero now n = ap (λ k. n * k) (omega arith) ∙ mul-zero n

refill-tokens :
    (now : ℕ) (p : BucketPolicy) (b : Bucket)
    → available_in now p (refill now p b) ≡ available_in now p b
unfolding refill
refill-tokens now p b = omega (arith, elapsed_zero now (pos_part p.requests_per_minute))

pub refill_loop-available :
    (now e j : ℕ) (ps : List (Option BucketPolicy)) (bs : List Bucket) (i : ℕ)
    → available_at now ps (refill_loop now e j ps bs) i ≡ available_at now ps bs i
unfolding refill_loop
refill_loop-available now e j [] bs i = refl
refill_loop-available now e j (p ∷ ps) [] i = refl
refill_loop-available now e j (none ∷ ps) (b ∷ bs) zero = refl
refill_loop-available now e j (some p ∷ ps) (b ∷ bs) zero = ground (arith, refill-tokens now p b)
refill_loop-available now e j (none ∷ ps) (b ∷ bs) (suc i) =
    refill_loop-available now e (j + 1) ps bs i
refill_loop-available now e j (some p ∷ ps) (b ∷ bs) (suc i) =
    refill_loop-available now e (j + 1) ps bs i

debit-tokens :
    (now : ℕ) (p : BucketPolicy) (b : Bucket)
    → available_in now p (record (refill now p b) { tokens = (refill now p b).tokens - token })
      ≡ available_in now p b - token
unfolding refill
debit-tokens now p b = omega (arith, elapsed_zero now (pos_part p.requests_per_minute))

applies_first : (e j : ℕ) → applies e (j + 0) ≡ applies e j
applies_first e j = ap (applies e) (omega arith)

applies_later : (e j i : ℕ) → applies e (j + 1 + i) ≡ applies e (j + suc i)
applies_later e j i = ap (applies e) (omega arith)

pub debit_loop-available :
    (now e j : ℕ) (ps : List (Option BucketPolicy)) (bs : List Bucket) (i : ℕ)
    → available_at now ps (debit_loop e j ps (refill_loop now e j ps bs)) i ≡ (
        if applies e (j + i)
        then less_token (available_at now ps bs i)
        else available_at now ps bs i)
unfolding refill_loop debit_loop
debit_loop-available now e j [] bs i = ground arith
debit_loop-available now e j (p ∷ ps) [] i = ground arith
debit_loop-available now e j (none ∷ ps) (b ∷ bs) zero = ground arith
debit_loop-available now e j (some p ∷ ps) (b ∷ bs) zero =
    ground (arith, debit-tokens now p b, applies_first e j)
debit_loop-available now e j (none ∷ ps) (b ∷ bs) (suc i) =
    ground (arith, debit_loop-available now e (j + 1) ps bs i, applies_later e j i)
debit_loop-available now e j (some p ∷ ps) (b ∷ bs) (suc i) =
    ground (arith, debit_loop-available now e (j + 1) ps bs i, applies_later e j i)

-- Whether a bucket has a token, or its class has no bucket.
abbrev pub has : Option ℕ → Bool
has none = true
has (some n) = leb token n

-- Whether every bucket that the request draws on has a token.
abbrev pub all_have : ℕ → ℕ → ℕ → List (Option BucketPolicy) → List Bucket → Bool
all_have now e j [] bs = true
all_have now e j (p ∷ ps) [] = true
all_have now e j (p ∷ ps) (b ∷ bs) =
    (not (applies e j) || has (available_lane now p b)) && all_have now e (j + 1) ps bs

pub decide_loop-allowed :
    (now e j : ℕ) (ps : List (Option BucketPolicy)) (bs : List Bucket) (d : Decision)
    → (decide_loop now e j ps bs d).allowed ≡ (d.allowed && all_have now e j ps bs)
unfolding decide_loop decide refill
decide_loop-allowed now e j [] bs d = ground arith
decide_loop-allowed now e j (p ∷ ps) [] d = ground arith
decide_loop-allowed now e j (none ∷ ps) (b ∷ bs) d =
    ground (arith, decide_loop-allowed now e (j + 1) ps bs d)
decide_loop-allowed now e j (some p ∷ ps) (b ∷ bs) d = ground (
  arith,
  decide_loop-allowed now e (j + 1) ps bs
      (if applies e j then decide j p (refill now p b) d else d),
)

-- A bucket last refilled no later than a time, or else full.
abbrev pub IsSoundBucket : ℕ → BucketPolicy → Bucket → Type 0
IsSoundBucket time p b = (b.last ≤ time) ⊎ (tokens_of p.burst ≤ b.tokens)

abbrev pub AreSound : ℕ → List (Option BucketPolicy) → List Bucket → Type 0
AreSound time [] [] = Unit {0}
AreSound time [] (b ∷ bs) = ⊥
AreSound time (p ∷ ps) [] = ⊥
AreSound time (none ∷ ps) (b ∷ bs) = AreSound time ps bs
AreSound time (some p ∷ ps) (b ∷ bs) = IsSoundBucket time p b × AreSound time ps bs

-- A burst that one minute refills.
abbrev pub IsModest : BucketPolicy → Type 0
IsModest p = pos_part p.burst ≤ pos_part p.requests_per_minute

abbrev pub AreModest : List (Option BucketPolicy) → Type 0
AreModest [] = Unit {0}
AreModest (none ∷ ps) = AreModest ps
AreModest (some p ∷ ps) = IsModest p × AreModest ps

-- After two idle minutes a sound bucket is full.
idle-full :
    (now time : ℕ) (p : BucketPolicy) (b : Bucket)
    → IsModest p
    → IsSoundBucket time p b
    → 120_000_000_000 < now - time
    → available_in now p b ≡ tokens_of p.burst
idle-full now time p b modest (inl early) long =
    let minute : token ≤ now - b.last = omega arith in
    omega (arith, mul-le-mul_left (pos_part p.requests_per_minute) minute)
idle-full now time p b modest (inr full) long = omega arith

pub idle-available :
    (now time : ℕ) (ps : List (Option BucketPolicy)) (bs : List Bucket) (i : ℕ)
    → AreModest ps
    → AreSound time ps bs
    → 120_000_000_000 < now - time
    → available_at now ps bs i ≡ full_at ps i
idle-available now time [] [] i m s l = refl
idle-available now time [] (b ∷ bs) i m s l = absurd s
idle-available now time (p ∷ ps) [] i m s l = absurd s
idle-available now time (none ∷ ps) (b ∷ bs) zero m s l = refl
idle-available now time (some p ∷ ps) (b ∷ bs) zero m s l =
    ap some (idle-full now time p b m.0 s.0 l)
idle-available now time (none ∷ ps) (b ∷ bs) (suc i) m s l = idle-available now time ps bs i m s l
idle-available now time (some p ∷ ps) (b ∷ bs) (suc i) m s l =
    idle-available now time ps bs i m.1 s.1 l

-- New buckets are full and sound.
pub full_buckets-available :
    (now : ℕ) (ps : List (Option BucketPolicy)) (i : ℕ)
    → available_at now ps (full_buckets now ps) i ≡ full_at ps i
unfolding full_buckets
full_buckets-available now [] i = refl
full_buckets-available now (none ∷ ps) zero = refl
full_buckets-available now (some p ∷ ps) zero = ap some (omega arith)
full_buckets-available now (none ∷ ps) (suc i) = full_buckets-available now ps i
full_buckets-available now (some p ∷ ps) (suc i) = full_buckets-available now ps i

pub full_buckets-AreSound :
    (now : ℕ) (ps : List (Option BucketPolicy)) → AreSound now ps (full_buckets now ps)
unfolding full_buckets
full_buckets-AreSound now [] = tt
full_buckets-AreSound now (none ∷ ps) = full_buckets-AreSound now ps
full_buckets-AreSound now (some p ∷ ps) = (inr (omega arith), full_buckets-AreSound now ps)

-- The loops keep buckets sound as of the time of the call.
pub refill_loop-AreSound :
    (now e j time : ℕ) (ps : List (Option BucketPolicy)) (bs : List Bucket)
    → time ≤ now
    → AreSound time ps bs
    → AreSound now ps (refill_loop now e j ps bs)
unfolding refill_loop refill
refill_loop-AreSound now e j time [] [] le s = tt
refill_loop-AreSound now e j time [] (b ∷ bs) le s = absurd s
refill_loop-AreSound now e j time (p ∷ ps) [] le s = absurd s
refill_loop-AreSound now e j time (none ∷ ps) (b ∷ bs) le s =
    refill_loop-AreSound now e (j + 1) time ps bs le s
refill_loop-AreSound now e j time (some p ∷ ps) (b ∷ bs) le s =
    (ground (arith, s.0), refill_loop-AreSound now e (j + 1) time ps bs le s.1)

pub debit_loop-AreSound :
    (now e j time : ℕ) (ps : List (Option BucketPolicy)) (bs : List Bucket)
    → time ≤ now
    → AreSound time ps bs
    → AreSound now ps (debit_loop e j ps (refill_loop now e j ps bs))
unfolding refill_loop refill debit_loop
debit_loop-AreSound now e j time [] [] le s = tt
debit_loop-AreSound now e j time [] (b ∷ bs) le s = absurd s
debit_loop-AreSound now e j time (p ∷ ps) [] le s = absurd s
debit_loop-AreSound now e j time (none ∷ ps) (b ∷ bs) le s =
    debit_loop-AreSound now e (j + 1) time ps bs le s
debit_loop-AreSound now e j time (some p ∷ ps) (b ∷ bs) le s =
    (ground (arith, s.0), debit_loop-AreSound now e (j + 1) time ps bs le s.1)
