-- ===== src/Speculative/Tests.antt =====
-- Runs of the speculative decoder, and its theorems at concrete drafts.
use inferflux.Prelude.{◌≡◌, refl, true, false, none, some, [], ◌∷◌, take, ◌&&◌, ◌⊎◌, ltb}
use inferflux.Prelude.Int.{pos}
use inferflux.Speculative.Defs.{
  Draft, Config, validate, check_draft, chunks_walk, chunk_walk, match_token, extend, target_tokens,
  make_draft, produced, at_most, chunk_tokens, chunk_loop, chunk_take, empty_draft,
}
use inferflux.Speculative.Validate.{validate-completion}
use inferflux.Speculative.Chunks.{Chunked, make_draft-Chunked}

abbrev config : Config
config = record { enabled = true; max_prefill_tokens = pos 256; chunk_size = pos 2 }

abbrev draft : Draft
draft = record {
  completion_tokens = 5 ∷ 6 ∷ 7 ∷ [];
  chunks = record { start = 0; end = 2 } ∷ record { start = 2; end = 3 } ∷ [];
}

draft_made : make_draft config (some (λ p. 5 ∷ 6 ∷ 7 ∷ 8 ∷ [])) (λ p. p) (1 ∷ []) (pos 3) ≡ draft
unfolding make_draft produced at_most chunk_tokens chunk_loop chunk_take
draft_made = refl

-- The first chunk is accepted, the second is not.
second_chunk_refused : validate none (some (5 ∷ 6 ∷ 9 ∷ 4 ∷ [])) draft (pos 4) ≡ record {
  completion_tokens = 5 ∷ 6 ∷ 9 ∷ 4 ∷ [];
  total_chunks = 2;
  accepted_chunks = 1;
  reused_tokens = 2;
}
unfolding validate check_draft chunks_walk chunk_walk match_token extend target_tokens
second_chunk_refused = refl

validate-completion_example :
    (validate none (some (5 ∷ 6 ∷ 9 ∷ 4 ∷ [])) draft (pos 3)).completion_tokens ≡ 5 ∷ 6 ∷ 9 ∷ []
unfolding target_tokens
validate-completion_example = validate-completion none (some (5 ∷ 6 ∷ 9 ∷ 4 ∷ [])) draft (pos 3)

make_draft-Chunked_example :
    let d = make_draft config none (λ p. 5 ∷ 6 ∷ 7 ∷ []) (1 ∷ []) (pos 3) in
    let drafts = true && ltb 0 3 in
    ((drafts ≡ true)
      × Chunked
          (chunk_tokens config)
          (take 3 (produced config none (λ p. 5 ∷ 6 ∷ 7 ∷ []) (1 ∷ [])))
          d)
    ⊎ ((drafts ≡ false) × (d ≡ empty_draft))
make_draft-Chunked_example = make_draft-Chunked config none (λ p. 5 ∷ 6 ∷ 7 ∷ []) (1 ∷ []) (pos 3)
