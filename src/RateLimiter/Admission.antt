-- ===== src/RateLimiter/Admission.antt =====
-- `Admit` as an operation on the requests that are available.
use inferflux.Prelude.{
  ℕ, ◌≤◌, ◌≡◌, ap, ap₂, ◌∙◌, Bool, true, false, ◌&&◌, Option, some, List, [], ◌∷◌, if◌then◌else◌,
  arith, inl, inr, Bool-cases, Option-cases,
}
use inferflux.Prelude.Int.{pos, leb_ℤ}
use inferflux.Prelude.Text.{Text, same, same_sound}
use inferflux.RateLimiter.Defs.{
  RequestClass, class_index, BucketPolicy, Bucket, Principal, Limiter, applies, decide_loop,
  evict_stale, policies, find, principal_buckets, aggregate_policy, spend, open_decision,
  admit_limited, admit,
}
use inferflux.RateLimiter.Buckets.{
  available_at, less_token, refill_loop-available, debit_loop-available, has, all_have,
  decide_loop-allowed, AreSound, full_buckets-available, full_buckets-AreSound,
  refill_loop-AreSound, debit_loop-AreSound,
}
use inferflux.RateLimiter.Available.{available, IsSound, evict_stale-available, evict_stale-IsSound}
use inferflux.RateLimiter.Principals.{find-assign, assign-AllSound, find-AllSound, AreSound-later}

-- The buckets that the loops start from.
principal_buckets-available :
    (now : ℕ) (key : Text) (i : ℕ) (m : Limiter)
    → available_at now (policies m) (principal_buckets now key m) i ≡ available now key i m
unfolding principal_buckets
principal_buckets-available now key i m = ground (arith, full_buckets-available now (policies m) i)

principal_buckets-AreSound :
    (now time : ℕ) (key : Text) (m : Limiter)
    → IsSound time m
    → time ≤ now
    → AreSound now (policies m) (principal_buckets now key m)
unfolding principal_buckets
principal_buckets-AreSound now time key m s le = elim (Option-cases (find key m.entries)) [
  | inl n ↦ rw (n, principal_buckets) (full_buckets-AreSound now (policies m))
  | inr (p, f) ↦
      let (sp, lp) = find-AllSound time (policies m) key p m.entries s.all_sound f in
      rw (f, principal_buckets) (AreSound-later p.last now (policies m) p.buckets (omega arith) sp)
]

lanes_have :
    (now : ℕ) (c : RequestClass) (a : BucketPolicy) (g e : Option BucketPolicy) (bs : List Bucket)
    → all_have now (class_index c) 0 (some a ∷ g ∷ e ∷ []) bs ≡ (
        has (available_at now (some a ∷ g ∷ e ∷ []) bs 0)
        && has (available_at now (some a ∷ g ∷ e ∷ []) bs (class_index c)))
unfolding applies
lanes_have now c a g e [] = ground arith
lanes_have now c a g e (b0 ∷ []) = ground arith
lanes_have now c a g e (b0 ∷ b1 ∷ []) = ground arith
lanes_have now c a g e (b0 ∷ b1 ∷ b2 ∷ bs) = ground arith

admit_limited-allowed :
    (now : ℕ) (key : Text) (c : RequestClass) (m : Limiter)
    → (admit_limited now key c m).1.allowed
      ≡ (has (available now key 0 m) && has (available now key (class_index c) m))
unfolding admit_limited policies
admit_limited-allowed now key c m =
    let bs = (principal_buckets now key m) in
    decide_loop-allowed now (class_index c) 0 (policies m) bs (open_decision m)
    ∙ lanes_have now c (aggregate_policy m) m.endpoints.generation_policy
        m.endpoints.embeddings_policy bs
    ∙ ap₂ (λ a b. has a && has b) (principal_buckets-available now key 0 m)
        (principal_buckets-available now key (class_index c) m)

spend-available :
    (now e : ℕ) (ok : Bool) (ps : List (Option BucketPolicy)) (bs : List Bucket) (i : ℕ)
    → available_at now ps (spend now e ok ps bs) i ≡ (
        if ok && applies e i
        then less_token (available_at now ps bs i)
        else available_at now ps bs i)
unfolding spend
spend-available now e true ps bs i =
    debit_loop-available now e 0 ps bs i
    ∙ ap
        (λ k.
          if applies e k then less_token (available_at now ps bs i) else available_at now ps bs i)
        (omega arith)
spend-available now e false ps bs i = refill_loop-available now e 0 ps bs i

spend-AreSound :
    (now e : ℕ) (ok : Bool) (ps : List (Option BucketPolicy)) (bs : List Bucket)
    → AreSound now ps bs
    → AreSound now ps (spend now e ok ps bs)
unfolding spend
spend-AreSound now e true ps bs s = debit_loop-AreSound now e 0 now ps bs (omega arith) s
spend-AreSound now e false ps bs s = refill_loop-AreSound now e 0 now ps bs (omega arith) s

admit_limited-available :
    (now : ℕ) (key : Text) (c : RequestClass) (m : Limiter) (key' : Text) (i : ℕ)
    → let (m', d) = admit_limited now key c m in
      available now key' i m' ≡ (
        if same key key' && d.allowed && applies (class_index c) i
        then less_token (available now key' i m)
        else available now key' i m)
unfolding admit_limited policies
admit_limited-available now key c m key' i =
    let bs = principal_buckets now key m in
    let ok = (decide_loop now (class_index c) 0 (policies m) bs (open_decision m)).allowed in
    let p : Principal = record {
      buckets = spend now (class_index c) ok (policies m) bs;
      last = now;
    } in
    elim (Bool-cases (same key key')) [
      | inl t ↦ ground (
        arith,
        find-assign key p m.entries key',
        spend-available now (class_index c) ok (policies m) bs i,
        principal_buckets-available now key i m,
        same_sound key key' t,
      )
      | inr o ↦ ground (arith, find-assign key p m.entries key')
    ]

admit_limited-IsSound :
    (now time : ℕ) (key : Text) (c : RequestClass) (m : Limiter)
    → time ≤ now
    → IsSound time m
    → IsSound now (admit_limited now key c m).0
unfolding admit_limited policies
admit_limited-IsSound now time key c m le s = record {
  modest = s.modest;
  all_sound =
      assign-AllSound time now (policies m) key _ m.entries le
        (spend-AreSound now (class_index c) _ (policies m) (principal_buckets now key m)
          (principal_buckets-AreSound now time key m s le))
        (omega arith) s.all_sound;
}

-- `admit` in shares reads and spends what is available at its time: it allows the request exactly when the shared
-- bucket of its key, and that of its class where the class has a policy, hold a token each. It then takes
-- one token from those buckets alone, of this key alone; a request that it rejects takes nothing. This
-- holds of a sound limiter with a limit above 0.
pub admit-available :
    (now time : ℕ) (key : Text) (c : RequestClass) (m : Limiter) (key' : Text) (i : ℕ)
    → IsSound time m
    → leb_ℤ m.tokens_per_minute (pos 0) ≡ false
    → let (m', d) = admit now key c m in
      (d.allowed ≡ (has (available now key 0 m) && has (available now key (class_index c) m)))
      × (available now key' i m' ≡ (
          if same key key' && d.allowed && applies (class_index c) i
          then less_token (available now key' i m)
          else available now key' i m))
unfolding admit
admit-available now time key c m key' i s limited = rw limited (
  admit_limited-allowed now key c (evict_stale now m)
      ∙ ap₂ (λ a b. has a && has b) (evict_stale-available now time key 0 m s)
          (evict_stale-available now time key (class_index c) m s),
  admit_limited-available now key c (evict_stale now m) key' i
      ∙ ap
          (λ a.
            if same key key'
              && (admit_limited now key c (evict_stale now m)).1.allowed
              && applies (class_index c) i
            then less_token a
            else a)
          (evict_stale-available now time key' i m s),
)

pub admit-IsSound :
    (now time : ℕ) (key : Text) (c : RequestClass) (m : Limiter)
    → time ≤ now
    → IsSound time m
    → leb_ℤ m.tokens_per_minute (pos 0) ≡ false
    → IsSound now (admit now key c m).0
unfolding admit
admit-IsSound now time key c m le s limited =
    rw limited (
      admit_limited-IsSound now time key c (evict_stale now m) le
        (evict_stale-IsSound now time m s))
