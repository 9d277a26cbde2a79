-- ===== src/Reasoning/Defs.antt =====
-- `ReasoningSplitter`.
use inferflux.Prelude.{
  ℕ, zero, suc, ◌+◌, ◌-◌, ◌==◌, Bool, true, false, ◌&&◌, ◌||◌, Option, none, some, [], ◌∷◌, ◌++◌,
  ltb, leb, if◌then◌else◌, length, take, drop,
}
use inferflux.Prelude.Text.{Text, same, is_empty}

-- `kOpenTag`, "<think>".
abbrev pub open_tag : Text
open_tag = 60 ∷ 116 ∷ 104 ∷ 105 ∷ 110 ∷ 107 ∷ 62 ∷ []

-- `kCloseTag`, "</think>".
abbrev pub close_tag : Text
close_tag = 60 ∷ 47 ∷ 116 ∷ 104 ∷ 105 ∷ 110 ∷ 107 ∷ 62 ∷ []

-- `kMaxTagLen`.
abbrev pub max_tag_len : ℕ
max_tag_len = 8

-- `StartsWithTag`.
unfoldable pub starts_with_tag : Text → Text → Bool
starts_with_tag text tag = leb (length tag) (length text) && same (take (length tag) text) tag

-- `MaybePartialTag`.
unfoldable pub maybe_partial_tag : Text → Text → Bool
maybe_partial_tag text tag = ltb (length text) (length tag) && same (take (length text) tag) text

-- `std::string::find` of a tag.
unfoldable pub find : Text → Text → Option ℕ
find tag [] = none
find tag (x ∷ xs) =
    let later = find tag xs in
    if starts_with_tag (x ∷ xs) tag
    then some 0
    else elim later [ none ↦ none | some n ↦ some (suc n) ]

-- The members of a splitter.
pub record Splitter : Type 0 where
  pub in_think : Bool
  pub pending : Text
  pub reasoning : Text
  pub content : Text
  pub reasoning_bytes : ℕ
  pub content_bytes : ℕ
  pub drained_reasoning_bytes : ℕ
  pub drained_content_bytes : ℕ

abbrev pub fresh : Splitter
fresh = record {
  in_think = false;
  pending = [];
  reasoning = [];
  content = [];
  reasoning_bytes = 0;
  content_bytes = 0;
  drained_reasoning_bytes = 0;
  drained_content_bytes = 0;
}

-- The last so many bytes.
abbrev pub tail : ℕ → Text → Text
tail k text = drop (length text - k) text

-- The loop over the lengths of a suffix, from so many bytes down to one: the longest that passes a test.
unfoldable pub longest : (Text → Bool) → ℕ → Text → ℕ
longest test zero text = 0
longest test (suc k) text =
    let shorter = longest test k text in
    if leb (suc k) (length text) && test (tail (suc k) text) then suc k else shorter

-- The test of the loop in the thinking state: the bytes are as many first ones of the closing tag.
abbrev pub opens_close : Text → Bool
opens_close text = same text (take (length text) close_tag)

abbrev pub opens_any : Text → Bool
opens_any text = maybe_partial_tag text open_tag || maybe_partial_tag text close_tag

-- One round of the loop of `Feed` in the thinking state, and whether it has progressed.
unfoldable pub think_round : Splitter → Splitter × Bool
think_round s = elim (find close_tag s.pending) [
  | some close ↦ (
    record s {
      reasoning = s.reasoning ++ take close s.pending;
      pending = drop (close + length close_tag) s.pending;
      in_think = false;
    },
    true,
  )
  | none ↦
      let keep = longest opens_close (length close_tag - 1) s.pending in
      let emit = length s.pending - keep in
      if emit == 0 then (s, false) else (
        record s { reasoning = s.reasoning ++ take emit s.pending; pending = drop emit s.pending },
        true,
      )
]

-- One round in the normal state.
unfoldable pub normal_round : Splitter → Splitter × Bool
normal_round s =
    let hold = longest opens_any max_tag_len s.pending in
    let emit = length s.pending - hold in
    if starts_with_tag s.pending open_tag
    then (record s { pending = drop (length open_tag) s.pending; in_think = true }, true)
    else if starts_with_tag s.pending close_tag
    then (record s { pending = drop (length close_tag) s.pending }, true)
    else if emit == 0
    then (s, false)
    else (
      record s { content = s.content ++ take emit s.pending; pending = drop emit s.pending },
      true,
    )

unfoldable pub round : Splitter → Splitter × Bool
round s = if s.in_think then think_round s else normal_round s

-- The loop of `Feed`, of at most so many rounds: each that progresses takes a byte away.
unfoldable pub loop : ℕ → Splitter → Splitter
loop zero s = s
loop (suc rounds) s =
    let rest = loop rounds (round s).0 in
    if is_empty s.pending then s else if (round s).1 then rest else (round s).0

-- `Feed`.
unfoldable pub feed : Text → Splitter → Splitter
feed piece s = let fed = record s { pending = s.pending ++ piece } in loop (length fed.pending) fed

-- `Parts`.
pub record Parts : Type 0 where
  pub reasoning : Text
  pub content : Text

-- `Finish`. The strings that it moves from are left empty.
unfoldable pub finish : Splitter → Splitter × Parts
finish s =
    let reasoning = if s.in_think then s.reasoning ++ s.pending else s.reasoning in
    let content = if s.in_think then s.content else s.content ++ s.pending in
    (
      record s {
        pending = [];
        reasoning = [];
        content = [];
        reasoning_bytes = length reasoning;
        content_bytes = length content;
      },
      record { reasoning = reasoning; content = content },
    )

-- `std::string::substr` from a position on: it throws past the end.
abbrev pub substr : Text → ℕ → Option Text
substr text n = if leb n (length text) then some (drop n text) else none

-- `Drain`.
unfoldable pub drain : Splitter → Option (Splitter × Parts)
drain s = elim (substr s.reasoning s.drained_reasoning_bytes) [
  | none ↦ none
  | some reasoning ↦ elim (substr s.content s.drained_content_bytes) [
    | none ↦ none
    | some content ↦ some (
      record s {
        drained_reasoning_bytes = length s.reasoning;
        drained_content_bytes = length s.content;
      },
      record { reasoning = reasoning; content = content },
    )
  ]
]

-- `Split`.
unfoldable pub split : Text → Parts
split output = (finish (feed output fresh)).1
