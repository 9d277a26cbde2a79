-- ===== src/Reasoning/Drains.antt =====
-- `Drain`, between the pieces: the parts that it returns one after another.
use mathlib.Core.List.{append_assoc, append-nil}
use inferflux.Prelude.{
  ℕ, zero, suc, ◌-◌, ◌==◌, ◌≤◌, ◌≡◌, refl, sym, ap, ◌∙◌, true, Option, none, some, List, [], ◌∷◌,
  ◌++◌, leb, if◌then◌else◌, length, take, drop, length-append, take-append-drop, take_all, arith,
  Bool-cases, inl, inr, subst,
}
use inferflux.Prelude.Text.{Text, is_empty}
use inferflux.Reasoning.Defs.{
  close_tag, Splitter, fresh, find, longest, opens_close, opens_any, max_tag_len, open_tag,
  starts_with_tag, think_round, normal_round, round, loop, feed, Parts, drain,
}

-- What a stream does between the start and the end: each piece that is fed may be followed by a drain.
pub data Event : Type 0 where
  fed : Text → Event
  drained : Event

-- The parts of all drains joined; none if one has thrown.
abbrev pub joined_parts : Parts → Parts → Parts
joined_parts p q = record {
  reasoning = p.reasoning ++ q.reasoning;
  content = p.content ++ q.content;
}

unfoldable pub stream : List Event → Splitter × Parts → Option (Splitter × Parts)
stream [] (s, p) = some (s, p)
stream (fed piece ∷ es) (s, p) = stream es (feed piece s, p)
stream (drained ∷ es) (s, p) = elim (drain s) [
  | none ↦ none
  | some (s', q) ↦ stream es (s', joined_parts p q)
]

-- One text after another's beginning.
pub record Extends (old new : Text) : Type 0 where
  pub more : Text
  pub whole : new ≡ old ++ more

Extends-self : (t : Text) → Extends t t
Extends-self t = record { more = []; whole = sym (append-nil t) }

Extends-trans : (a b c : Text) → Extends a b → Extends b c → Extends a c
Extends-trans a b c x y = record {
  more = x.more ++ y.more;
  whole = y.whole ∙ ap (λ t. t ++ y.more) x.whole ∙ append_assoc a x.more y.more;
}

-- A splitter after some rounds: its parts have grown at their ends, and the drains have not moved.
pub record Grows (s s' : Splitter) : Type 0 where
  pub reasoning : Extends s.reasoning s'.reasoning
  pub content : Extends s.content s'.content
  pub same_reasoning : s'.drained_reasoning_bytes ≡ s.drained_reasoning_bytes
  pub same_content : s'.drained_content_bytes ≡ s.drained_content_bytes

Grows-self : (s : Splitter) → Grows s s
Grows-self s = record {
  reasoning = Extends-self s.reasoning;
  content = Extends-self s.content;
  same_reasoning = refl;
  same_content = refl;
}

Grows-trans : (a b c : Splitter) → Grows a b → Grows b c → Grows a c
Grows-trans a b c x y = record {
  reasoning = Extends-trans a.reasoning b.reasoning c.reasoning x.reasoning y.reasoning;
  content = Extends-trans a.content b.content c.content x.content y.content;
  same_reasoning = y.same_reasoning ∙ x.same_reasoning;
  same_content = y.same_content ∙ x.same_content;
}

think_round-Grows : (s : Splitter) → Grows s (think_round s).0
unfolding think_round
think_round-Grows s = go (find close_tag s.pending) refl
  where
    go : (o : Option ℕ) → find close_tag s.pending ≡ o → Grows s (think_round s).0
    go (some n) e =
        rw (e, think_round)
          (record {
            reasoning = record { more = take n s.pending; whole = refl };
            content = Extends-self s.content;
            same_reasoning = refl;
            same_content = refl;
          })
    go none e =
        let emit = length s.pending - longest opens_close 7 s.pending in
        elim (Bool-cases (emit == 0)) [
          | inl waits ↦ rw (e, think_round) (rw waits (Grows-self s))
          | inr more ↦
              rw (e, think_round)
                (rw more (record {
                  reasoning = record { more = take emit s.pending; whole = refl };
                  content = Extends-self s.content;
                  same_reasoning = refl;
                  same_content = refl;
                }))
        ]

normal_round-Grows : (s : Splitter) → Grows s (normal_round s).0
unfolding normal_round
normal_round-Grows s =
    let emit = length s.pending - longest opens_any max_tag_len s.pending in
    let same : Grows s s = Grows-self s in
    elim (Bool-cases (starts_with_tag s.pending open_tag)) [
      | inl o ↦ rw o (record {
        reasoning = same.reasoning;
        content = same.content;
        same_reasoning = refl;
        same_content = refl;
      })
      | inr other ↦ rw other (elim (Bool-cases (starts_with_tag s.pending close_tag)) [
        | inl c ↦ rw c (record {
          reasoning = same.reasoning;
          content = same.content;
          same_reasoning = refl;
          same_content = refl;
        })
        | inr neither ↦ rw neither (elim (Bool-cases (emit == 0)) [
          | inl waits ↦ rw waits same
          | inr more ↦ rw more (record {
            reasoning = same.reasoning;
            content = record { more = take emit s.pending; whole = refl };
            same_reasoning = refl;
            same_content = refl;
          })
        ])
      ])
    ]

round-Grows : (s : Splitter) → Grows s (round s).0
unfolding round
round-Grows s = elim (Bool-cases s.in_think) [
  | inl b ↦
      subst (λ t. Grows s (if t then think_round s else normal_round s).0) (sym b)
        (think_round-Grows s)
  | inr b ↦
      subst (λ t. Grows s (if t then think_round s else normal_round s).0) (sym b)
        (normal_round-Grows s)
]

loop-Grows : (n : ℕ) (s : Splitter) → Grows s (loop n s)
unfolding loop
loop-Grows zero s = Grows-self s
loop-Grows (suc n) s = elim (Bool-cases (is_empty s.pending)) [
  | inl done ↦ rw done (Grows-self s)
  | inr more ↦ rw more (elim (Bool-cases (round s).1) [
    | inl goes_on ↦
        rw goes_on (
          Grows-trans s (round s).0 (loop n (round s).0) (round-Grows s) (loop-Grows n (round s).0))
    | inr ends ↦ rw ends (round-Grows s)
  ])
]

-- Feed only adds to the parts at their ends.
pub feed-Grows : (piece : Text) (s : Splitter) → Grows s (feed piece s)
unfolding feed
feed-Grows piece s =
    let r = loop-Grows (length (s.pending ++ piece)) (record s { pending = s.pending ++ piece }) in
    record {
      reasoning = r.reasoning;
      content = r.content;
      same_reasoning = r.same_reasoning;
      same_content = r.same_content;
    }

-- The drains have returned the first bytes of a text, up to a position.
pub record IsUpTo (drained : ℕ) (text returned : Text) : Type 0 where
  pub inside : drained ≤ length text
  pub returns : returned ≡ take drained text

-- The drains so far have returned what the splitter says that they have.
abbrev IsDrained : Splitter → Parts → Type 0
IsDrained s p =
    IsUpTo s.drained_reasoning_bytes s.reasoning p.reasoning
    × IsUpTo s.drained_content_bytes s.content p.content

take-append_le {ℓ} :
    {A : Type ℓ} (n : ℕ) (xs ys : List A) → n ≤ length xs → take n (xs ++ ys) ≡ take n xs
take-append_le zero xs ys l = refl
take-append_le (suc n) [] ys l = absurd (omega arith)
take-append_le (suc n) (x ∷ xs) ys l = ap (◌∷◌ x) (take-append_le n xs ys (omega arith))

IsUpTo-Extends :
    (m n : ℕ) (old new returned : Text)
    → n ≡ m
    → Extends old new
    → IsUpTo m old returned
    → IsUpTo n new returned
IsUpTo-Extends m n old new returned same e u = record {
  inside = omega (arith, u.inside, same, ap length e.whole, length-append old e.more);
  returns =
      u.returns
      ∙ sym (take-append_le m old e.more u.inside)
      ∙ ap (take m) (sym e.whole)
      ∙ ap (λ k. take k new) (sym same);
}

feed-IsDrained :
    (piece : Text) (s : Splitter) (p : Parts) → IsDrained s p → IsDrained (feed piece s) p
feed-IsDrained piece s p (a, b) =
    let g = feed-Grows piece s in
    (
      IsUpTo-Extends s.drained_reasoning_bytes _ s.reasoning _ p.reasoning g.same_reasoning
          g.reasoning a,
      IsUpTo-Extends s.drained_content_bytes _ s.content _ p.content g.same_content g.content b,
    )

-- A drain that returns the rest of both texts.
pub record Drains (s : Splitter) (p : Parts) : Type 0 where
  pub after : Splitter
  pub parts : Parts
  pub returns : drain s ≡ some (after, parts)
  pub complete : joined_parts p parts ≡ (record { reasoning = s.reasoning; content = s.content })
  pub counts : IsDrained after (joined_parts p parts)

IsUpTo-end : (t : Text) → IsUpTo (length t) t t
IsUpTo-end t = record { inside = omega arith; returns = sym (take_all (length t) t (omega arith)) }

rest_of : (n : ℕ) (text returned : Text) → IsUpTo n text returned → returned ++ drop n text ≡ text
rest_of n text returned u = ap (λ t. t ++ drop n text) u.returns ∙ take-append-drop n text

drain-Drains : (s : Splitter) (p : Parts) → IsDrained s p → Drains s p
unfolding drain
drain-Drains s p (a, b) =
    let r = rest_of s.drained_reasoning_bytes s.reasoning p.reasoning a in
    let c = rest_of s.drained_content_bytes s.content p.content b in
    let ra : leb s.drained_reasoning_bytes (length s.reasoning) ≡ true = ground (arith, a.inside) in
    let rb : leb s.drained_content_bytes (length s.content) ≡ true = ground (arith, b.inside) in
    record {
      after = record s {
        drained_reasoning_bytes = length s.reasoning;
        drained_content_bytes = length s.content;
      };
      parts = record {
        reasoning = drop s.drained_reasoning_bytes s.reasoning;
        content = drop s.drained_content_bytes s.content;
      };
      returns = ground (arith, ra, rb);
      complete = λ i. record { reasoning = r i; content = c i };
      counts = (
        subst (IsUpTo (length s.reasoning) s.reasoning) (sym r) (IsUpTo-end s.reasoning),
        subst (IsUpTo (length s.content) s.content) (sym c) (IsUpTo-end s.content),
      );
    }

-- A stream that has thrown nothing.
pub record Streams (es : List Event) (s : Splitter) (p : Parts) : Type 0 where
  pub last : Splitter
  pub so_far : Parts
  pub returns : stream es (s, p) ≡ some (last, so_far)
  pub next : Drains last so_far

stream-Streams : (es : List Event) (s : Splitter) (p : Parts) → IsDrained s p → Streams es s p
unfolding stream
stream-Streams [] s p d = record { last = s; so_far = p; returns = refl; next = drain-Drains s p d }
stream-Streams (fed piece ∷ es) s p d =
    let r = stream-Streams es (feed piece s) p (feed-IsDrained piece s p d) in
    record { last = r.last; so_far = r.so_far; returns = r.returns; next = r.next }
stream-Streams (drained ∷ es) s p d =
    let q = drain-Drains s p d in
    let r = stream-Streams es q.after (joined_parts p q.parts) q.counts in
    record {
      last = r.last;
      so_far = r.so_far;
      returns = rw (q.returns, stream) r.returns;
      next = r.next;
    }

abbrev pub no_parts : Parts
no_parts = record { reasoning = []; content = [] }

-- From a new splitter on, through any pieces with any drains between them and before Finish: no drain
-- throws, and what the drains have returned so far, joined, with what the next one returns, is the whole
-- reasoning and the whole content that the splitter has.
pub stream_complete : (es : List Event) → Streams es fresh no_parts
stream_complete es = stream-Streams es fresh no_parts (
  record { inside = omega arith; returns = refl },
  record { inside = omega arith; returns = refl },
)
