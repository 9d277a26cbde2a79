-- ===== src/Reasoning/Pending.antt =====
-- The end of the loop of `Feed`, and what it holds back.
use inferflux.Prelude.{
  ℕ, zero, suc, ◌+◌, ◌-◌, ◌==◌, ◌≤◌, ◌<◌, ◌≡◌, refl, sym, ap, ◌∙◌, ◌⊎◌, inl, inr, Bool, true, false,
  ◌&&◌, Option, none, some, [], ◌∷◌, ◌++◌, leb, if◌then◌else◌, length, drop, length-drop, arith,
  Bool-cases, Option-cases,
}
use inferflux.Prelude.Text.{Text, same, is_empty}
use inferflux.Reasoning.Defs.{
  open_tag, close_tag, max_tag_len, starts_with_tag, maybe_partial_tag, find, Splitter, tail,
  longest, opens_close, opens_any, think_round, normal_round, round, loop, feed,
}

-- A round that makes no progress leaves the splitter as it is; another takes bytes away.
pub data Rounds (s : Splitter) : Splitter × Bool → Type 0 where
  idles : Rounds s (s, false)
  progresses :
      (s' : Splitter)
      → (0 < length s.pending → length s'.pending < length s.pending)
      → Rounds s (s', true)

think_round-Rounds : (s : Splitter) → Rounds s (think_round s)
unfolding think_round
think_round-Rounds s = go (find close_tag s.pending) refl
  where
    go : (o : Option ℕ) → find close_tag s.pending ≡ o → Rounds s (think_round s)
    go (some close) e =
        rw (e, think_round) (progresses _ (λ l. omega (arith, length-drop (close + 8) s.pending)))
    go none e =
        let emit = length s.pending - longest opens_close 7 s.pending in
        elim (Bool-cases (emit == 0)) [
          | inl waits ↦ rw (e, think_round) (rw waits idles)
          | inr more ↦
              rw (e, think_round)
                (rw more (progresses _ (λ l. ground (arith, more, length-drop emit s.pending))))
        ]

normal_round-Rounds : (s : Splitter) → Rounds s (normal_round s)
unfolding normal_round
normal_round-Rounds s =
    let emit = length s.pending - longest opens_any max_tag_len s.pending in
    elim (Bool-cases (starts_with_tag s.pending open_tag)) [
      | inl opens ↦ rw opens (progresses _ (λ l. omega (arith, length-drop 7 s.pending)))
      | inr other ↦ rw other (elim (Bool-cases (starts_with_tag s.pending close_tag)) [
        | inl closes ↦ rw closes (progresses _ (λ l. omega (arith, length-drop 8 s.pending)))
        | inr neither ↦ rw neither (elim (Bool-cases (emit == 0)) [
          | inl waits ↦ rw waits idles
          | inr more ↦
              rw more (progresses _ (λ l. ground (arith, more, length-drop emit s.pending)))
        ])
      ])
    ]

pub round-Rounds : (s : Splitter) → Rounds s (round s)
unfolding round
round-Rounds s = elim (Bool-cases s.in_think) [
  | inl thinks ↦ simp thinks (think_round-Rounds s)
  | inr normal ↦ simp normal (normal_round-Rounds s)
]

-- The longest suffix that passes a test is none, or it passes the test.
longest_passes :
    (test : Text → Bool) (n : ℕ) (text : Text)
    → (longest test n text ≡ 0)
      ⊎ ((longest test n text ≤ n)
          × (longest test n text ≤ length text)
          × (test (tail (longest test n text) text) ≡ true))
unfolding longest
longest_passes test zero text = inl refl
longest_passes test (suc k) text =
    elim (Bool-cases (leb (suc k) (length text) && test (tail (suc k) text))) [
      | inl ok ↦ rw ok (inr (omega arith, ground (arith, ok), ground (arith, ok)))
      | inr fails ↦ rw fails (elim (longest_passes test k text) [
        | inl e ↦ inl e
        | inr (a, b, c) ↦ inr (omega arith, b, c)
      ])
    ]

-- If all is held back, the whole passes the test.
longest_whole :
    (test : Text → Bool) (n : ℕ) (text : Text)
    → test [] ≡ true
    → ((length text - longest test n text) == 0) ≡ true
    → (length text ≤ n) × (test text ≡ true)
longest_whole test n [] empty h = (omega arith, empty)
longest_whole test n (x ∷ xs) empty h = elim (longest_passes test n (x ∷ xs)) [
  | inl e ↦ absurd (ground (arith, h, e))
  | inr (a, b, c) ↦
      let e : longest test n (x ∷ xs) ≡ length (x ∷ xs) = ground (arith, h, b) in
      let e' : length (x ∷ xs) - longest test n (x ∷ xs) ≡ 0 = omega arith in
      (omega arith, sym (ap (λ m. test (drop m (x ∷ xs))) e') ∙ c)
]

-- What a splitter holds back is short, and may still become a tag that it waits for.
pub record IsHeldBack (s : Splitter) : Type 0 where
  pub short : length s.pending ≤ 7
  pub partial : (if s.in_think then opens_close s.pending else opens_any s.pending) ≡ true

-- The rounds come to their end.
pub data IsSettled (s : Splitter) : Type 0 where
  empties : s.pending ≡ [] → IsSettled s
  waits : (round s).1 ≡ false → IsSettled s

think_round-waits :
    (s : Splitter)
    → (think_round s).1 ≡ false
    → (length s.pending ≤ 7) × (opens_close s.pending ≡ true)
unfolding think_round same
think_round-waits s = elim (Option-cases (find close_tag s.pending)) [
  | inr (close, e) ↦ rw (e, think_round) (λ h. cc)
  | inl e ↦
      rw (e, think_round)
        (elim (Bool-cases ((length s.pending - longest opens_close 7 s.pending) == 0)) [
          | inl w ↦ λ h. longest_whole opens_close 7 s.pending refl w
          | inr more ↦ rw more (λ h. cc)
        ])
]

opens_any-short : (text : Text) → opens_any text ≡ true → length text ≤ 7
unfolding maybe_partial_tag
opens_any-short text h = ground arith

normal_round-waits :
    (s : Splitter)
    → (normal_round s).1 ≡ false
    → (length s.pending ≤ 7) × (opens_any s.pending ≡ true)
unfolding normal_round maybe_partial_tag same
normal_round-waits s = elim (Bool-cases (starts_with_tag s.pending open_tag)) [
  | inl opens ↦ rw opens (λ h. cc)
  | inr other ↦ rw other (elim (Bool-cases (starts_with_tag s.pending close_tag)) [
    | inl closes ↦ rw closes (λ h. cc)
    | inr neither ↦
        rw neither
          (elim (Bool-cases ((length s.pending - longest opens_any max_tag_len s.pending) == 0)) [
            | inl w ↦ λ h.
                let r = longest_whole opens_any max_tag_len s.pending refl w in
                (opens_any-short s.pending r.1, r.1)
            | inr more ↦ rw more (λ h. cc)
          ])
  ])
]

IsSettled-IsHeldBack : (s : Splitter) → IsSettled s → IsHeldBack s
unfolding round same maybe_partial_tag
IsSettled-IsHeldBack s (empties e) = record {
  short = ground (arith, e);
  partial = rw e (ground arith);
}
IsSettled-IsHeldBack s (waits h) = elim (Bool-cases s.in_think) [
  | inl thinks ↦
      let r = think_round-waits s (simp thinks at h) in
      record { short = r.0; partial = simp thinks r.1 }
  | inr normal ↦
      let r = normal_round-waits s (simp normal at h) in
      record { short = r.0; partial = simp normal r.1 }
]

is_empty-nil : (text : Text) → is_empty text ≡ true → text ≡ []
unfolding is_empty
is_empty-nil [] h = refl
is_empty-nil (x ∷ xs) h = cc

nil_of_length : (text : Text) → length text ≤ 0 → text ≡ []
nil_of_length [] h = refl
nil_of_length (x ∷ xs) h = absurd (omega arith)

is_empty-length : (text : Text) → is_empty text ≡ false → 0 < length text
unfolding is_empty
is_empty-length [] h = cc
is_empty-length (x ∷ xs) h = omega arith

round-IsSettled :
    (n : ℕ) (s : Splitter)
    → ((s' : Splitter) → length s'.pending ≤ n → IsSettled (loop n s'))
    → length s.pending ≤ suc n
    → 0 < length s.pending
    → (r : Splitter × Bool) → round s ≡ r
    → Rounds s r
    → IsSettled (if r.1 then loop n r.0 else r.0)
round-IsSettled n s later l more _ e idles = waits (ap (λ r. r.1) e)
round-IsSettled n s later l more _ e (progresses s' fewer) = later s' (omega (arith, fewer more))

loop-IsSettled : (n : ℕ) (s : Splitter) → length s.pending ≤ n → IsSettled (loop n s)
unfolding loop
loop-IsSettled zero s l = empties (nil_of_length s.pending l)
loop-IsSettled (suc n) s l = elim (Bool-cases (is_empty s.pending)) [
  | inl done ↦ rw done (empties (is_empty-nil s.pending done))
  | inr more ↦ rw more (
      round-IsSettled n s (loop-IsSettled n) l (is_empty-length s.pending more) (round s) refl
        (round-Rounds s))
]

-- The loop of Feed ends, in at most as many rounds as there are pending bytes: afterwards nothing is
-- pending, or a round would make no progress. What is then held back is at most 7 bytes, which are the
-- first ones of the closing tag in the thinking state, and of either tag in the normal one.
pub feed-IsHeldBack :
    (piece : Text) (s : Splitter) → IsSettled (feed piece s) × IsHeldBack (feed piece s)
unfolding feed
feed-IsHeldBack piece s =
    let fed = record s { pending = s.pending ++ piece } in
    let ends = loop-IsSettled (length fed.pending) fed (omega arith) in
    (ends, IsSettled-IsHeldBack _ ends)
