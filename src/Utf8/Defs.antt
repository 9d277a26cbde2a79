-- ===== src/Utf8/Defs.antt =====
-- `IncrementalUtf8Assembler`. Bytes are numbers; those of a `std::string` lie below 256.
use inferflux.Prelude.{
  ℕ, zero, suc, ◌+◌, ◌-◌, Bool, true, false, ◌&&◌, List, [], ◌∷◌, ◌++◌, ltb, leb, ◌==◌,
  if◌then◌else◌, length, take, drop,
}

-- `IsContinuation`.
unfoldable pub is_continuation : ℕ → Bool
is_continuation byte = leb 0x80 byte && leb byte 0xBF

-- `SequenceLength`.
unfoldable pub sequence_length : ℕ → ℕ
sequence_length lead =
    if leb lead 0x7F
    then 1
    else if leb 0xC2 lead && leb lead 0xDF
    then 2
    else if leb 0xE0 lead && leb lead 0xEF
    then 3
    else if leb 0xF0 lead && leb lead 0xF4
    then 4
    else 0

-- `IsValidSecondByte`.
unfoldable pub is_valid_second_byte : ℕ → ℕ → Bool
unfolding is_continuation
is_valid_second_byte lead second =
    if is_continuation second
    then (if lead == 0xE0
        then leb 0xA0 second
        else if lead == 0xED
        then leb second 0x9F
        else if lead == 0xF0
        then leb 0x90 second
        else if lead == 0xF4
        then leb second 0x8F
        else true)
    else false

unfoldable pub all_continuation : List ℕ → Bool
unfolding is_continuation
all_continuation [] = true
all_continuation (b ∷ bs) = is_continuation b && all_continuation bs

-- `valid_available_prefix`, of the bytes behind the lead that are there and belong to its sequence.
unfoldable pub valid_tail : ℕ → List ℕ → Bool
unfolding is_valid_second_byte all_continuation
valid_tail lead [] = true
valid_tail lead (second ∷ more) = is_valid_second_byte lead second && all_continuation more

-- What one round of the loop of `Consume` does at a lead byte.
pub data Action : Type 0 where
  copies : ℕ → Action
  replaces : Action
  waits : Action

unfoldable pub classify : ℕ → List ℕ → Action
classify lead bytes =
    let n = sequence_length lead in
    if n == 1
    then copies 1
    else if n == 0
    then replaces
    else if valid_tail lead (take (n - 1) bytes)
    then (if ltb (length bytes + 1) n then waits else copies n)
    else replaces

abbrev pub replacement : List ℕ
replacement = 0xEF ∷ 0xBF ∷ 0xBD ∷ []

-- `Utf8AssemblyResult`, with the bytes that stay in `pending_`.
pub record Assembly : Type 0 where
  pub text : List ℕ
  pub replacements : ℕ
  pub pending : List ℕ

abbrev pub assembly : List ℕ → ℕ → List ℕ → Assembly
assembly text replacements pending = record {
  text = text;
  replacements = replacements;
  pending = pending;
}

-- One round at `bytes`; `next` goes on behind it.
unfoldable pub perform :
    Action → (List ℕ → ℕ → List ℕ → Assembly) → Bool → List ℕ → ℕ → List ℕ → Assembly
perform (copies k) next finish text n bytes = next (text ++ take k bytes) n (drop k bytes)
perform replaces next finish text n bytes = next (text ++ replacement) (n + 1) (drop 1 bytes)
perform waits next finish text n bytes =
    if finish then assembly (text ++ replacement) (n + 1) [] else assembly text n bytes

-- The loop of `Consume`: `fuel` bounds the rounds, and the list is what lies behind the offset.
unfoldable pub consume : ℕ → Bool → List ℕ → ℕ → List ℕ → Assembly
consume zero finish text n bytes = assembly text n bytes
consume (suc fuel) finish text n [] = assembly text n []
consume (suc fuel) finish text n (b ∷ bs) =
    perform (classify b bs) (consume fuel finish) finish text n (b ∷ bs)

-- `Append`: every round takes at least one byte, so the length is fuel enough.
unfoldable pub append : List ℕ → List ℕ → Assembly
append pending bytes = consume (length (pending ++ bytes)) false [] 0 (pending ++ bytes)

-- `Finish`.
unfoldable pub finish : List ℕ → Assembly
finish pending = consume (length pending) true [] 0 pending

abbrev pub concat : List (List ℕ) → List ℕ
concat [] = []
concat (piece ∷ pieces) = piece ++ concat pieces

-- A client that appends piece after piece, and collects the text and the replacements.
unfoldable pub feed : Assembly → List (List ℕ) → Assembly
feed a [] = a
feed a (piece ∷ pieces) =
    let r = append a.pending piece in
    feed (assembly (a.text ++ r.text) (a.replacements + r.replacements) r.pending) pieces

-- The same client, which finishes at the end.
unfoldable pub assemble : List (List ℕ) → Assembly
assemble pieces =
    let a = feed (assembly [] 0 []) pieces in
    let r = finish a.pending in
    assembly (a.text ++ r.text) (a.replacements + r.replacements) r.pending
