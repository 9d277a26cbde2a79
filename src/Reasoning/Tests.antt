-- ===== src/Reasoning/Tests.antt =====
-- Runs of the splitter on small inputs, and its theorems at such inputs.
use inferflux.Prelude.{◌≡◌, refl, true, List, [], ◌∷◌, ◌++◌}
use inferflux.Prelude.Text.{Text, same, is_empty}
use inferflux.Reasoning.Defs.{
  open_tag, close_tag, fresh, find, longest, starts_with_tag, maybe_partial_tag, think_round,
  normal_round, round, loop, feed, finish, split,
}
use inferflux.Reasoning.Pending.{IsSettled, IsHeldBack, feed-IsHeldBack}
use inferflux.Reasoning.Reads.{joined, feed_all, feed_all-finish}
use inferflux.Reasoning.Tags.{Reads}
use inferflux.Reasoning.Drains.{Event, fed, drained, Streams, no_parts, stream_complete}
use inferflux.Reasoning.Cuts.{feed-cut}

-- "hi" and "yes".
abbrev thought : Text
thought = 104 ∷ 105 ∷ []

abbrev answer : Text
answer = 121 ∷ 101 ∷ 115 ∷ []

splits :
    split (open_tag ++ thought ++ close_tag ++ answer)
    ≡ (record { reasoning = thought; content = answer })
unfolding split feed finish loop round think_round normal_round find longest starts_with_tag
    maybe_partial_tag same is_empty
splits = refl

-- A closing tag in two pieces.
splits_pieces :
    (finish (
      feed_all
        (open_tag ∷ (104 ∷ 105 ∷ 60 ∷ 47 ∷ []) ∷ (116 ∷ 104 ∷ 105 ∷ 110 ∷ 107 ∷ 62 ∷ 121 ∷ []) ∷ [])
        fresh)).1
    ≡ (record { reasoning = thought; content = 121 ∷ [] })
unfolding feed_all feed finish loop round think_round normal_round find longest starts_with_tag
    maybe_partial_tag same is_empty
splits_pieces = refl

abbrev pieces : List Text
pieces = open_tag ∷ thought ∷ close_tag ∷ answer ∷ []

feed-IsHeldBack_example : IsSettled (feed thought fresh) × IsHeldBack (feed thought fresh)
feed-IsHeldBack_example = feed-IsHeldBack thought fresh

feed_all-finish_example :
    let s = feed_all pieces fresh in
    Reads (joined pieces) s.in_think (finish s).1.reasoning (finish s).1.content
feed_all-finish_example = feed_all-finish pieces

abbrev events : List Event
events = fed open_tag ∷ drained ∷ fed thought ∷ drained ∷ fed close_tag ∷ fed answer ∷ []

stream_complete_example : Streams events fresh no_parts
stream_complete_example = stream_complete events

feed-cut_example :
    (feed (65 ∷ open_tag ++ thought) fresh ≡ record fresh { content = 65 ∷ open_tag ++ thought })
    × ((feed (open_tag ++ thought) (feed (65 ∷ []) fresh)).in_think ≡ true)
    × ((feed (open_tag ++ thought) (feed (65 ∷ []) fresh)).content ≡ 65 ∷ [])
unfolding longest maybe_partial_tag same find starts_with_tag
feed-cut_example = feed-cut 65 thought refl refl refl
