-- ===== src/Speculative/Defs.antt =====
-- `SpeculativeDecoder::Draft` and `Validate`. The tokens that a backend, the device or a validation
-- override produces are arguments: `Generate`, `Encode`, `Decode` and `RunGreedyDecode` are not code
-- of this component.
use inferflux.Prelude.{
  ℕ, zero, suc, ◌+◌, ◌-◌, Bool, true, false, not, ◌&&◌, ◌||◌, Option, none, some, List, [], ◌∷◌,
  ◌++◌, ltb, leb, ◌==◌, if◌then◌else◌, get_elem?, length, take, drop,
}
use inferflux.Prelude.Int.{ℤ, pos, negsuc, leb_ℤ, ltb_ℤ}

-- Tokens are `int`s that are only compared.
abbrev pub Token : Type 0
Token = ℕ

-- `SpeculativeChunk`.
pub record Chunk : Type 0 where
  pub start : ℕ
  pub end : ℕ

-- `SpeculativeDraft`.
pub record Draft : Type 0 where
  pub completion_tokens : List Token
  pub chunks : List Chunk

-- `SpeculativeConfig`.
pub record Config : Type 0 where
  pub enabled : Bool
  pub max_prefill_tokens : ℤ
  pub chunk_size : ℤ

-- `SpeculativeValidationResult` with its `SpeculativeMetrics`.
pub record Validation : Type 0 where
  pub completion_tokens : List Token
  pub total_chunks : ℕ
  pub accepted_chunks : ℕ
  pub reused_tokens : ℕ

abbrev pub to_size : ℤ → ℕ
to_size (pos n) = n
to_size (negsuc n) = 0

abbrev pub empty_draft : Draft
empty_draft = record { completion_tokens = []; chunks = [] }

-- The prompt that `RunGreedyDecode` is given.
unfoldable pub cut_prompt : Config → List Token → List Token
cut_prompt c prompt =
    if ltb_ℤ (pos 0) c.max_prefill_tokens && ltb (to_size c.max_prefill_tokens) (length prompt)
    then take (to_size c.max_prefill_tokens) prompt
    else prompt

-- The new tokens in what `RunGreedyDecode` returned for the cut prompt.
unfoldable pub greedy_tokens : List Token → List Token → List Token
greedy_tokens prompt greedy =
    if ltb (length prompt) (length greedy) then drop (length prompt) greedy else greedy

-- The inner loop of `Draft`: how many tokens go into one chunk, with `rounds` rounds left.
unfoldable pub chunk_take : ℕ → ℕ → ℕ → ℕ
chunk_take zero cursor size = cursor
chunk_take (suc rounds) cursor size =
    let rest = chunk_take rounds (cursor + 1) size in if ltb cursor size then rest else cursor

-- The outer loop over the new tokens. `out` are the tokens copied so far; the loop runs while
-- tokens are left, and `fuel` bounds its rounds.
unfoldable pub chunk_loop : ℕ → ℕ → List Token → List Token → List Chunk → Draft
chunk_loop zero chunk_size out rest chunks = record { completion_tokens = out; chunks = chunks }
chunk_loop (suc fuel) chunk_size out [] chunks = record { completion_tokens = out; chunks = chunks }
chunk_loop (suc fuel) chunk_size out (t ∷ ts) chunks =
    let n = chunk_take chunk_size 0 (length (t ∷ ts)) in
    let out' = out ++ take n (t ∷ ts) in
    chunk_loop fuel chunk_size out' (drop n (t ∷ ts))
      (chunks ++ record { start = length out; end = length out' } ∷ [])

-- The tokens that `Draft` cuts into chunks: `generated prompt` are the encoded tokens of the draft
-- backend, if it is ready, and `greedy prompt` what the device decodes.
unfoldable pub produced :
    Config → Option (List Token → List Token) → (List Token → List Token) → List Token → List Token
produced c (some g) greedy prompt = g prompt
produced c none greedy prompt = greedy_tokens (cut_prompt c prompt) (greedy (cut_prompt c prompt))

-- `resize` to at most `n` tokens.
unfoldable pub at_most : ℕ → List Token → List Token
at_most n tokens = if ltb n (length tokens) then take n tokens else tokens

-- `std::max(1, chunk_size)`.
unfoldable pub chunk_tokens : Config → ℕ
chunk_tokens c = if ltb_ℤ c.chunk_size (pos 1) then 1 else to_size c.chunk_size

-- `Draft`.
unfoldable pub make_draft :
    Config → Option (List Token → List Token) → (List Token → List Token) → List Token → ℤ → Draft
make_draft c generated greedy prompt max_new =
    let tokens = at_most (to_size max_new) (produced c generated greedy prompt) in
    if not c.enabled || leb_ℤ max_new (pos 0)
    then empty_draft
    else chunk_loop (length tokens) (chunk_tokens c) [] tokens []

-- The draft token, if the target has the same one.
unfoldable pub match_token : Option Token → Option Token → Option Token
match_token (some d) (some t) = if d == t then some d else none
match_token _ _ = none

-- The loop over one chunk, from draft position `idx` with `rounds` positions left. It takes the
-- tokens already accepted (their number), the tokens of the chunk so far and the target index, and
-- gives the chunk's tokens, the target index and whether the chunk was taken to its end.
unfoldable pub chunk_walk :
    ℕ → List Token → List Token → ℕ → ℕ → ℕ → List Token → ℕ → List Token × ℕ × Bool
chunk_walk zero draft target limit done idx taken target_index = (taken, target_index, true)
chunk_walk (suc rounds) draft target limit done idx taken target_index =
    if leb limit (done + length taken)
    then (taken, target_index, false)
    else (elim (match_token (get_elem? draft idx) (get_elem? target target_index)) [
      | none ↦ (taken, target_index, false)
      | some d ↦
          chunk_walk rounds draft target limit done (idx + 1) (taken ++ d ∷ []) (target_index + 1)
    ])

abbrev pub reuse : List Token → Validation → Validation
reuse taken r = record r {
  reused_tokens = r.reused_tokens + length taken;
  completion_tokens = r.completion_tokens ++ taken;
}

abbrev pub accept : Validation → Validation
accept r = record r { accepted_chunks = r.accepted_chunks + 1 }

-- The loop over the chunks: the result so far and the target index.
unfoldable pub chunks_walk :
    List Chunk → List Token → List Token → ℕ → Validation → ℕ → Validation × ℕ
chunks_walk [] draft target limit r target_index = (r, target_index)
chunks_walk (c ∷ cs) draft target limit r target_index =
    let (taken, target_index', all_ok) =
      chunk_walk (c.end - c.start) draft target limit (length r.completion_tokens) c.start []
        target_index in
    let r' = reuse taken r in
    let next = chunks_walk cs draft target limit (accept r') target_index' in
    if leb limit (length r.completion_tokens)
    then (r, target_index)
    else if length taken == 0
    then (r, target_index')
    else if all_ok && length taken == c.end - c.start
    then next
    else (r', target_index')

-- The last loop of `Validate`, over the target tokens from the target index on.
unfoldable pub extend : List Token → ℕ → List Token → List Token
extend [] limit out = out
extend (t ∷ ts) limit out =
    let more = extend ts limit (out ++ t ∷ []) in if ltb (length out) limit then more else out

-- The target tokens of `Validate`: those of the override, else those of the target backend if it is
-- ready, else the draft itself.
unfoldable pub target_tokens : Option (List Token) → Option (List Token) → Draft → List Token
target_tokens (some overridden) generated d = overridden
target_tokens none (some generated) d = generated
target_tokens none none d = d.completion_tokens

abbrev pub no_tokens : Draft → Validation
no_tokens d = record {
  completion_tokens = [];
  total_chunks = length d.chunks;
  accepted_chunks = 0;
  reused_tokens = 0;
}

-- `Validate` once the target tokens are there.
unfoldable pub check_draft : Draft → ℕ → List Token → Validation
check_draft d limit [] = no_tokens d
check_draft d limit (t ∷ ts) =
    let (r, target_index) =
      chunks_walk d.chunks d.completion_tokens (t ∷ ts) limit (no_tokens d) 0 in
    record r { completion_tokens = extend (drop target_index (t ∷ ts)) limit r.completion_tokens }

-- `Validate`.
unfoldable pub validate : Option (List Token) → Option (List Token) → Draft → ℤ → Validation
validate overridden generated d max_new =
    if leb_ℤ max_new (pos 0)
    then no_tokens d
    else check_draft d (to_size max_new) (target_tokens overridden generated d)
