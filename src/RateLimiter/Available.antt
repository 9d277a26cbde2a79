-- ===== src/RateLimiter/Available.antt =====
-- The requests that a limiter still has for a key: what eviction and admission do to them.
use inferflux.Prelude.{
  ℕ, ◌-◌, ◌≤◌, ◌≡◌, refl, Option, none, some, List, [], ◌∷◌, ltb, arith, inl, inr, Bool-cases,
}
use inferflux.Prelude.Text.{Text, same_sound}
use inferflux.RateLimiter.Defs.{
  BucketPolicy, Principal, Limiter, evict_loop, evict_stale, policies, find,
}
use inferflux.RateLimiter.Buckets.{available_at, full_at, AreSound, AreModest, idle-available}

-- The shares that the bucket `i` of a key holds at a time; a key without a principal has full buckets.
abbrev pub available_for :
    ℕ → List (Option BucketPolicy) → Text → ℕ → List (Text × Principal) → Option ℕ
available_for now ps key i es = elim (find key es) [
  | none ↦ full_at ps i
  | some p ↦ available_at now ps p.buckets i
]

abbrev pub available : ℕ → Text → ℕ → Limiter → Option ℕ
available now key i m = available_for now (policies m) key i m.entries

-- Principals with distinct keys, seen no later than a time, with sound buckets.
abbrev pub AllSound : ℕ → List (Option BucketPolicy) → List (Text × Principal) → Type 0
AllSound time ps [] = Unit {0}
AllSound time ps ((k, p) ∷ es) =
    AreSound p.last ps p.buckets × (p.last ≤ time) × (find k es ≡ none) × AllSound time ps es

-- What the constructor and the methods keep true of a limiter at a time.
pub record IsSound (time : ℕ) (m : Limiter) : Type 0 where
  pub modest : AreModest (policies m)
  pub all_sound : AllSound time (policies m) m.entries

evict_loop-none :
    (now : ℕ) (key : Text) (es : List (Text × Principal))
    → find key es ≡ none
    → find key (evict_loop now es) ≡ none
unfolding find evict_loop
evict_loop-none now key [] h = refl
evict_loop-none now key ((k, p) ∷ es) h = ground (arith, evict_loop-none now key es)

-- Eviction takes away only principals whose buckets are full by now.
evict_loop-available :
    (now time : ℕ) (ps : List (Option BucketPolicy)) (key : Text) (i : ℕ)
    (es : List (Text × Principal))
    → AreModest ps
    → AllSound time ps es
    → available_for now ps key i (evict_loop now es) ≡ available_for now ps key i es
unfolding find evict_loop
evict_loop-available now time ps key i [] m s = refl
evict_loop-available now time ps key i ((k, p) ∷ es) m (sp, le, fresh, ss) =
    elim (Bool-cases (ltb 120_000_000_000 (now - p.last))) [
      | inl stale ↦ ground (
        arith,
        evict_loop-available now time ps key i es m ss,
        idle-available now p.last ps p.buckets i m sp,
        evict_loop-none now key es,
        same_sound k key,
      )
      | inr live ↦ ground (arith, evict_loop-available now time ps key i es m ss)
    ]

-- Eviction changes nothing that a client can see: whatever time is given, each bucket of each key has as
-- many shares after `EvictStaleLocked` as before it. This holds of a limiter whose policies have bursts
-- no larger than a minute's requests, whose keys are distinct, and whose buckets were last refilled no
-- later than their principal was seen or are full.
pub evict_stale-available :
    (now time : ℕ) (key : Text) (i : ℕ) (m : Limiter)
    → IsSound time m
    → available now key i (evict_stale now m) ≡ available now key i m
unfolding evict_stale policies
evict_stale-available now time key i m s =
    ground (arith, evict_loop-available now time (policies m) key i m.entries s.modest s.all_sound)

evict_loop-AllSound :
    (now time : ℕ) (ps : List (Option BucketPolicy)) (es : List (Text × Principal))
    → AllSound time ps es
    → AllSound time ps (evict_loop now es)
unfolding evict_loop
evict_loop-AllSound now time ps [] s = tt
evict_loop-AllSound now time ps ((k, p) ∷ es) (sp, le, fresh, ss) =
    elim (Bool-cases (ltb 120_000_000_000 (now - p.last))) [
      | inl stale ↦ rw stale (evict_loop-AllSound now time ps es ss)
      | inr live ↦
          rw live (sp, le, evict_loop-none now k es fresh, evict_loop-AllSound now time ps es ss)
    ]

pub evict_stale-IsSound :
    (now time : ℕ) (m : Limiter) → IsSound time m → IsSound time (evict_stale now m)
unfolding evict_stale policies
evict_stale-IsSound now time m s = elim (Bool-cases (ltb (now - m.last_eviction) 60_000_000_000)) [
  | inl soon ↦ rw soon s
  | inr due ↦ rw due (record {
    modest = s.modest;
    all_sound = evict_loop-AllSound now time (policies m) m.entries s.all_sound;
  })
]
