-- ===== src/Utf8/Tests.antt =====
-- Runs of the assembler, and its theorems at concrete bytes.
use inferflux.Prelude.{ℕ, ◌≡◌, refl, List, [], ◌∷◌, arith, inl, inr}
use inferflux.Utf8.Defs.{
  append, finish, assemble, assembly, consume, perform, classify, sequence_length, valid_tail, feed,
  concat,
}
use inferflux.Utf8.Stream.{assemble-concat}
use inferflux.Utf8.Wellformed.{IsUtf8, done, scalar, assemble-IsUtf8}

-- The bytes of U+20AC, in two pieces, and a stray byte.
abbrev pieces : List (List ℕ)
pieces = (0x41 ∷ 0xE2 ∷ []) ∷ (0x82 ∷ 0xAC ∷ 0xFF ∷ []) ∷ []

euro_split : assemble pieces ≡ assembly (0x41 ∷ 0xE2 ∷ 0x82 ∷ 0xAC ∷ 0xEF ∷ 0xBF ∷ 0xBD ∷ []) 1 []
unfolding assemble feed append finish consume perform classify sequence_length valid_tail
euro_split = refl

unfinished : append [] (0xE2 ∷ 0x82 ∷ []) ≡ assembly [] 0 (0xE2 ∷ 0x82 ∷ [])
unfolding append consume perform classify sequence_length valid_tail
unfinished = refl

assemble-concat_example : assemble pieces ≡ assemble (concat pieces ∷ [])
assemble-concat_example = assemble-concat pieces

assemble-IsUtf8_example : IsUtf8 (assemble pieces).text
assemble-IsUtf8_example = assemble-IsUtf8 pieces

abbrev euro : List ℕ
euro = 0xE2 ∷ 0x82 ∷ 0xAC ∷ []

euro-IsUtf8 : IsUtf8 euro
euro-IsUtf8 = scalar euro [] refl (inr (inl (omega arith, omega arith)), omega arith) done
