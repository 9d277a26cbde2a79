-- ===== src/Reasoning/Reads.antt =====
-- What the splitter makes of the text that it has been fed.
use mathlib.Core.List.{append_assoc, append-nil}
use inferflux.Prelude.{
  ℕ, zero, suc, ◌+◌, ◌-◌, ◌==◌, ◌≤◌, ◌<◌, ◌≡◌, refl, sym, ap, ◌∙◌, inl, inr, true, false, Option,
  none, some, List, [], ◌∷◌, ◌++◌, if◌then◌else◌, length, take, drop, take-append-drop, arith,
  Bool-cases, subst,
}
use inferflux.Prelude.Text.{Text, is_empty}
use inferflux.Reasoning.Pending.{feed-IsHeldBack}
use inferflux.Reasoning.Defs.{
  open_tag, close_tag, max_tag_len, starts_with_tag, find, Splitter, fresh, longest, opens_close,
  opens_any, think_round, normal_round, round, loop, feed, finish,
}
use inferflux.Reasoning.Tags.{
  Reads, starts, says, opens, strays, thinks, closes, IsRead, find-take, find_first, read_on,
  tag_first, drop-drop,
}

think_round-IsRead :
    (input : Text) (s : Splitter)
    → s.in_think ≡ true
    → IsRead input s
    → IsRead input (think_round s).0
unfolding think_round
think_round-IsRead input s b i = go (find close_tag s.pending) refl
  where
    reads : Reads i.read true s.reasoning s.content
    reads = subst (λ t. Reads i.read t s.reasoning s.content) b i.reads

    go : (o : Option ℕ) → find close_tag s.pending ≡ o → IsRead input (think_round s).0
    go (some n) e =
        let (none_before, stands) = find_first close_tag s.pending n e in
        let after : close_tag ++ drop (n + 8) s.pending ≡ drop n s.pending =
          ap (λ t. t ++ drop (n + 8) s.pending) (sym stands)
          ∙ ap (λ t. take 8 (drop n s.pending) ++ t) (sym (drop-drop n 8 s.pending))
          ∙ take-append-drop 8 (drop n s.pending) in
        rw (e, think_round)
          (record {
            read = (i.read ++ take n s.pending) ++ close_tag;
            reads =
                closes (i.read ++ take n s.pending) (s.reasoning ++ take n s.pending) s.content
                  (thinks i.read s.reasoning s.content (take n s.pending) reads none_before);
            whole =
                read_on input close_tag (drop (n + 8) s.pending) (drop n s.pending)
                  (i.read ++ take n s.pending)
                  (read_on input (take n s.pending) (drop n s.pending) s.pending i.read i.whole
                    (take-append-drop n s.pending))
                  after;
          })
    go none e =
        let emit = length s.pending - longest opens_close 7 s.pending in
        elim (Bool-cases (emit == 0)) [
          | inl waits ↦ rw (e, think_round) (rw waits i)
          | inr more ↦
              rw (e, think_round)
                (rw more (record {
                  read = i.read ++ take emit s.pending;
                  reads =
                      subst
                        (λ t.
                          Reads (i.read ++ take emit s.pending) t
                            (s.reasoning ++ take emit s.pending) s.content)
                        (sym b)
                        (thinks i.read s.reasoning s.content (take emit s.pending) reads
                          (find-take emit close_tag s.pending e));
                  whole =
                      read_on input (take emit s.pending) (drop emit s.pending) s.pending i.read
                        i.whole (take-append-drop emit s.pending);
                }))
        ]

normal_round-IsRead :
    (input : Text) (s : Splitter)
    → s.in_think ≡ false
    → IsRead input s
    → IsRead input (normal_round s).0
unfolding normal_round
normal_round-IsRead input s b i =
    let reads = subst (λ t. Reads i.read t s.reasoning s.content) b i.reads in
    let emit = length s.pending - longest opens_any max_tag_len s.pending in
    elim (Bool-cases (starts_with_tag s.pending open_tag)) [
      | inl o ↦ rw o (record {
        read = i.read ++ open_tag;
        reads = opens i.read s.reasoning s.content reads;
        whole = read_on input open_tag _ s.pending i.read i.whole (tag_first open_tag s.pending o);
      })
      | inr other ↦ rw other (elim (Bool-cases (starts_with_tag s.pending close_tag)) [
        | inl c ↦ rw c (record {
          read = i.read ++ close_tag;
          reads =
              subst (λ t. Reads (i.read ++ close_tag) t s.reasoning s.content) (sym b)
                (strays i.read s.reasoning s.content reads);
          whole =
              read_on input close_tag _ s.pending i.read i.whole (tag_first close_tag s.pending c);
        })
        | inr neither ↦ rw neither (elim (Bool-cases (emit == 0)) [
          | inl waits ↦ rw waits i
          | inr more ↦ rw more (record {
            read = i.read ++ take emit s.pending;
            reads =
                subst
                  (λ t.
                    Reads (i.read ++ take emit s.pending) t s.reasoning
                      (s.content ++ take emit s.pending))
                  (sym b) (says i.read s.reasoning s.content (take emit s.pending) reads);
            whole =
                read_on input (take emit s.pending) (drop emit s.pending) s.pending i.read i.whole
                  (take-append-drop emit s.pending);
          })
        ])
      ])
    ]

round-IsRead : (input : Text) (s : Splitter) → IsRead input s → IsRead input (round s).0
unfolding round
round-IsRead input s i = elim (Bool-cases s.in_think) [
  | inl b ↦
      subst (λ t. IsRead input (if t then think_round s else normal_round s).0) (sym b)
        (think_round-IsRead input s b i)
  | inr b ↦
      subst (λ t. IsRead input (if t then think_round s else normal_round s).0) (sym b)
        (normal_round-IsRead input s b i)
]

loop-IsRead : (input : Text) (n : ℕ) (s : Splitter) → IsRead input s → IsRead input (loop n s)
unfolding loop
loop-IsRead input zero s i = i
loop-IsRead input (suc n) s i = elim (Bool-cases (is_empty s.pending)) [
  | inl done ↦ rw done i
  | inr more ↦ rw more (elim (Bool-cases (round s).1) [
    | inl goes_on ↦ rw goes_on (loop-IsRead input n (round s).0 (round-IsRead input s i))
    | inr ends ↦ rw ends (round-IsRead input s i)
  ])
]

feed-IsRead :
    (input piece : Text) (s : Splitter) → IsRead input s → IsRead (input ++ piece) (feed piece s)
unfolding feed
feed-IsRead input piece s i = loop-IsRead (input ++ piece) _ _ (record {
  read = i.read;
  reads = i.reads;
  whole = sym (append_assoc i.read s.pending piece) ∙ ap (λ t. t ++ piece) i.whole;
})

-- The pieces one after another.
unfoldable pub feed_all : List Text → Splitter → Splitter
feed_all [] s = s
feed_all (p ∷ ps) s = feed_all ps (feed p s)

unfoldable pub joined : List Text → Text
joined [] = []
joined (p ∷ ps) = p ++ joined ps

pub feed_all-IsRead :
    (ps : List Text) (input : Text) (s : Splitter)
    → IsRead input s
    → IsRead (input ++ joined ps) (feed_all ps s)
unfolding feed_all joined
feed_all-IsRead [] input s i = subst (λ t. IsRead t s) (sym (append-nil input)) i
feed_all-IsRead (p ∷ ps) input s i =
    subst (λ t. IsRead t (feed_all ps (feed p s))) (append_assoc input p (joined ps))
      (feed_all-IsRead ps (input ++ p) (feed p s) (feed-IsRead input p s i))

find_short : (tag text : Text) → length text < length tag → find tag text ≡ none
unfolding find starts_with_tag
find_short tag [] l = refl
find_short tag (x ∷ xs) l = ground (arith, find_short tag xs)

feed_all-short :
    (ps : List Text) (s : Splitter) → length s.pending ≤ 7 → length (feed_all ps s).pending ≤ 7
unfolding feed_all
feed_all-short [] s l = l
feed_all-short (p ∷ ps) s l = feed_all-short ps (feed p s) (feed-IsHeldBack p s).1.short

finish-reads :
    (input : Text) (s : Splitter)
    → IsRead input s
    → length s.pending ≤ 7
    → Reads input s.in_think (finish s).1.reasoning (finish s).1.content
unfolding finish
finish-reads input s i l = elim (Bool-cases s.in_think) [
  | inl b ↦
      subst
        (λ t.
          Reads input t (if t then s.reasoning ++ s.pending else s.reasoning)
            (if t then s.content else s.content ++ s.pending))
        (sym b)
        (subst (λ x. Reads x true (s.reasoning ++ s.pending) s.content) i.whole
          (thinks i.read s.reasoning s.content s.pending
            (subst (λ t. Reads i.read t s.reasoning s.content) b i.reads)
            (find_short close_tag s.pending (omega arith))))
  | inr b ↦
      subst
        (λ t.
          Reads input t (if t then s.reasoning ++ s.pending else s.reasoning)
            (if t then s.content else s.content ++ s.pending))
        (sym b)
        (subst (λ x. Reads x false s.reasoning (s.content ++ s.pending)) i.whole
          (says i.read s.reasoning s.content s.pending
            (subst (λ t. Reads i.read t s.reasoning s.content) b i.reads)))
]

-- Of the pieces that are fed to a new splitter no byte is lost, doubled or moved: Finish returns a
-- reasoning and a content that are a reading of all of the pieces joined. In a reading only tags are left
-- out, reasoning stands only between an opening tag and the closing one, and no stretch of it, as the
-- splitter has taken them off, has a closing tag.
pub feed_all-finish :
    (ps : List Text)
    → let s = feed_all ps fresh in
      Reads (joined ps) s.in_think (finish s).1.reasoning (finish s).1.content
feed_all-finish ps =
    finish-reads (joined ps) (feed_all ps fresh)
      (feed_all-IsRead ps [] fresh (record { read = []; reads = starts; whole = refl }))
      (feed_all-short ps fresh (omega arith))
