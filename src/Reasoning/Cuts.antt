-- ===== src/Reasoning/Cuts.antt =====
-- Where the pieces are cut makes a difference: an opening tag counts only where a piece's pending bytes
-- begin with it.
use inferflux.Prelude.{
  ℕ, zero, suc, ◌-◌, ◌==◌, ◌≤◌, ◌≡◌, refl, sym, ap, true, false, none, List, [], ◌∷◌, ◌++◌,
  if◌then◌else◌, length, drop, take_all, arith, Bool-cases, inl, inr, subst,
}
use inferflux.Prelude.Text.{Text, is_empty, same}
use inferflux.Reasoning.Defs.{
  close_tag, open_tag, Splitter, fresh, find, longest, opens_any, opens_close, starts_with_tag,
  maybe_partial_tag, think_round, normal_round, round, loop, feed,
}

loop_done : (n : ℕ) (s : Splitter) → s.pending ≡ [] → loop n s ≡ s
unfolding loop is_empty
loop_done zero s e = refl
loop_done (suc n) s e = let done : is_empty s.pending ≡ true = ap is_empty e in simp done refl

drop_all {ℓ} : {A : Type ℓ} (n : ℕ) (xs : List A) → length xs ≤ n → drop n xs ≡ []
drop_all zero [] l = refl
drop_all zero (x ∷ xs) l = absurd (omega arith)
drop_all (suc n) [] l = refl
drop_all (suc n) (x ∷ xs) l = drop_all n xs (omega arith)

-- A piece that does not begin with a tag, and does not end with the beginning of one.
module _ (x : ℕ) (t : Text) (no_tag : (x == 60) ≡ false)
    (no_hold : longest opens_any 8 (x ∷ t) ≡ 0) where
  no_open : starts_with_tag (x ∷ t) open_tag ≡ false
  unfolding starts_with_tag same
  no_open = ground (arith, no_tag)

  no_close : starts_with_tag (x ∷ t) close_tag ≡ false
  unfolding starts_with_tag same
  no_close = ground (arith, no_tag)

  round_emits : round (record fresh { pending = x ∷ t }) ≡ (record fresh { content = x ∷ t }, true)
  unfolding round normal_round
  round_emits =
      let all : suc (length t) - 0 ≡ suc (length t) = omega arith in
      let some_bytes : (suc (length t) == 0) ≡ false = ground arith in
      let taken = take_all (length t) t (omega arith) in
      let left = drop_all (length t) t (omega arith) in
      simp (no_open, no_close, no_hold) (simp (all, some_bytes, taken, left) refl)

  feed_plain : feed (x ∷ t) fresh ≡ record fresh { content = x ∷ t }
  unfolding feed loop is_empty
  feed_plain = rw round_emits (loop_done (length t) (record fresh { content = x ∷ t }) refl)

find-drop : (n : ℕ) (tag text : Text) → find tag text ≡ none → find tag (drop n text) ≡ none
unfolding find
find-drop zero tag text h = h
find-drop (suc n) tag [] h = refl
find-drop (suc n) tag (x ∷ xs) h = find-drop n tag xs (ground (arith, h))

-- In the thinking state, with no closing tag among the pending bytes.
record Thinks (content : Text) (s : Splitter) : Type 0 where
  thinks : s.in_think ≡ true
  no_tag : find close_tag s.pending ≡ none
  keeps : s.content ≡ content

round-Thinks : (content : Text) (s : Splitter) → Thinks content s → Thinks content (round s).0
unfolding round think_round
round-Thinks content s h =
    let emit = length s.pending - longest opens_close 7 s.pending in
    subst (λ t. Thinks content (if t then think_round s else normal_round s).0) (sym h.thinks)
      (rw (h.no_tag, think_round)
        (elim (Bool-cases (emit == 0)) [
          | inl waits ↦ rw waits h
          | inr more ↦ rw more (record {
            thinks = h.thinks;
            no_tag = find-drop emit close_tag s.pending h.no_tag;
            keeps = h.keeps;
          })
        ]))

loop-Thinks : (content : Text) (n : ℕ) (s : Splitter) → Thinks content s → Thinks content (loop n s)
unfolding loop
loop-Thinks content zero s h = h
loop-Thinks content (suc n) s h = elim (Bool-cases (is_empty s.pending)) [
  | inl done ↦ rw done h
  | inr more ↦ rw more (elim (Bool-cases (round s).1) [
    | inl goes_on ↦ rw goes_on (loop-Thinks content n (round s).0 (round-Thinks content s h))
    | inr ends ↦ rw ends (round-Thinks content s h)
  ])
]

begins_open : (u : Text) → starts_with_tag (open_tag ++ u) open_tag ≡ true
unfolding starts_with_tag same
begins_open u = ground arith

feed_opens :
    (content u : Text)
    → find close_tag u ≡ none
    → Thinks content (feed (open_tag ++ u) (record fresh { content = content }))
unfolding feed loop is_empty round normal_round
feed_opens content u h = rw (begins_open u) (
    loop-Thinks content (length (116 ∷ 104 ∷ 105 ∷ 110 ∷ 107 ∷ 62 ∷ u))
      (record fresh { content = content; pending = u; in_think = true })
      (record { thinks = refl; no_tag = h; keeps = refl }))

-- The splitter depends on how the text is cut. For any byte other than < and any text without a closing
-- tag: if the bytes held back of the whole, which is the byte, an opening tag and the text, are none, then
-- fed as one piece to a new splitter it all becomes content, the tag too; but fed as the byte and then the
-- rest it leaves the splitter in its reasoning, with the byte alone as content.
pub feed-cut :
    (x : ℕ) (u : Text)
    → (x == 60) ≡ false
    → longest opens_any 8 (x ∷ open_tag ++ u) ≡ 0
    → find close_tag u ≡ none
    → (feed (x ∷ open_tag ++ u) fresh ≡ record fresh { content = x ∷ open_tag ++ u })
      × ((feed (open_tag ++ u) (feed (x ∷ []) fresh)).in_think ≡ true)
      × ((feed (open_tag ++ u) (feed (x ∷ []) fresh)).content ≡ x ∷ [])
unfolding longest maybe_partial_tag same
feed-cut x u h e no_close =
    let alone : longest opens_any 8 (x ∷ []) ≡ 0 = ground (arith, h) in
    let r = feed_opens (x ∷ []) u no_close in
    (
      feed_plain x (open_tag ++ u) h e,
      rw (feed_plain x [] h alone) r.thinks,
      rw (feed_plain x [] h alone) r.keeps,
    )
