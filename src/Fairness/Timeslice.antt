-- ===== src/Fairness/Timeslice.antt =====
-- Which requests `ApplyTimeslice` limits, and to what.
use inferflux.Prelude.{
  ℕ, ◌==◌, ◌≡◌, refl, sym, ap, subst, ◌∙◌, Bool, true, false, not, ◌&&◌, ◌||◌, none, some, List, [],
  ◌∷◌, if◌then◌else◌, arith, ◌⊎◌, inl, inr, Bool-cases,
}
use inferflux.Prelude.Int.{ℤ, pos, negsuc, leb_ℤ, ltb_ℤ, ◌≤ℤ◌}
use inferflux.Fairness.Defs.{
  Config, Entry, RequestFairness, Requests, slice_limit, slice_entry, slice_loop, apply_timeslice,
}

-- Whether an entry of low priority is about the request at an address.
abbrev pub is_about : Config → ℕ → Entry → Bool
is_about c a e = elim e.request [
  | none ↦ false
  | some r ↦ a == r && not (leb_ℤ c.high_priority_threshold e.priority_level)
]

abbrev pub is_low : Config → ℕ → List Entry → Bool
is_low c a [] = false
is_low c a (e ∷ es) = is_about c a e || is_low c a es

abbrev pub sliced : Config → RequestFairness → RequestFairness
sliced c r = record r { timeslice_tokens = slice_limit c r }

slice_entry_lem :
    (c : Config) (e : Entry) (requests : Requests) (a : ℕ)
    → slice_entry c e requests a ≡ (if is_about c a e then sliced c (requests a) else requests a)
unfolding slice_entry
slice_entry_lem c e requests a = ground arith

slice_limit-sliced :
    (c : Config) (r : RequestFairness) → slice_limit c (sliced c r) ≡ slice_limit c r
unfolding slice_limit
slice_limit-sliced c r = refl

slice_loop_lem :
    (c : Config) (es : List Entry) (requests : Requests) (a : ℕ)
    → slice_loop c es requests a ≡ (if is_low c a es then sliced c (requests a) else requests a)
unfolding slice_loop
slice_loop_lem c [] requests a = refl
slice_loop_lem c (e ∷ es) requests a =
    slice_loop_lem c es (slice_entry c e requests) a
    ∙ ap (λ r. if is_low c a es then sliced c r else r) (slice_entry_lem c e requests a)
    ∙ again (is_about c a e) (is_low c a es)
  where
    again :
        (x y : Bool)
        → (if y
            then sliced c (if x then sliced c (requests a) else requests a)
            else (if x then sliced c (requests a) else requests a))
          ≡ (if x || y then sliced c (requests a) else requests a)
    again true true =
        ap (λ n. record (requests a) { timeslice_tokens = n }) (slice_limit-sliced c (requests a))
    again true false = refl
    again false true = refl
    again false false = refl

-- What a limit promises.
abbrev pub IsWithin : ℤ → RequestFairness → Type 0
IsWithin most r =
    (pos 1 ≤ℤ r.timeslice_tokens)
    × (r.timeslice_tokens ≤ℤ most)
    × ((r.remaining_decode_tokens ≤ℤ pos 0) ⊎ (r.timeslice_tokens ≤ℤ r.remaining_decode_tokens))

slice_limit-IsWithin :
    (most left : ℤ)
    → leb_ℤ most (pos 0) ≡ false
    → let limit = if ltb_ℤ (pos 0) left then (if ltb_ℤ left most then left else most) else most in
      (pos 1 ≤ℤ limit) × (limit ≤ℤ most) × ((left ≤ℤ pos 0) ⊎ (limit ≤ℤ left))
slice_limit-IsWithin (pos n) (pos k) h = ground arith
slice_limit-IsWithin (pos n) (negsuc k) h = ground arith
slice_limit-IsWithin (negsuc n) left h = absurd (ground arith)

sliced-IsWithin :
    (c : Config) (r : RequestFairness)
    → leb_ℤ c.max_timeslice_tokens (pos 0) ≡ false
    → IsWithin c.max_timeslice_tokens (sliced c r)
unfolding slice_limit
sliced-IsWithin c r h = slice_limit-IsWithin c.max_timeslice_tokens r.remaining_decode_tokens h

-- With a positive `max_timeslice_tokens`, `ApplyTimeslice` gives each request that stands in the batch with
-- a priority below the threshold a timeslice of at least 1 and at most that maximum, and no more than the
-- tokens that it has left to decode where it has any, and changes nothing else of it; every other request,
-- and without a positive maximum each one, stays as it was.
pub apply_timeslice_lem :
    (c : Config) (batch : List Entry) (requests : Requests) (a : ℕ)
    → let r = apply_timeslice c batch requests a in
      let limits = not (leb_ℤ c.max_timeslice_tokens (pos 0)) && is_low c a batch in
      ((limits ≡ false) × (r ≡ requests a))
      ⊎ ((limits ≡ true)
          × (r.remaining_decode_tokens ≡ (requests a).remaining_decode_tokens)
          × IsWithin c.max_timeslice_tokens r)
unfolding apply_timeslice
apply_timeslice_lem c batch requests a = elim (Bool-cases (leb_ℤ c.max_timeslice_tokens (pos 0))) [
  | inl none_given ↦ rw none_given (inl (refl, refl))
  | inr given ↦ simp given (elim (Bool-cases (is_low c a batch)) [
    | inr high ↦ inl (
      high,
      slice_loop_lem c batch requests a
          ∙ ap (λ b. if b then sliced c (requests a) else requests a) high,
    )
    | inl low ↦
        let e : slice_loop c batch requests a ≡ sliced c (requests a) =
          slice_loop_lem c batch requests a
          ∙ ap (λ b. if b then sliced c (requests a) else requests a) low in
        inr (
          low,
          ap (λ r. r.remaining_decode_tokens) e,
          subst (IsWithin c.max_timeslice_tokens) (sym e) (sliced-IsWithin c (requests a) given),
        )
  ])
]
