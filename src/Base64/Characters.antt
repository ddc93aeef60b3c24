-- ===== src/Base64/Characters.antt =====
-- The characters that the encoder writes: none of them is NUL.
use libwebsock.Prelude.{
  ℕ, ◌<◌, refl, List, [], ◌∷◌, arith, All, ltb, ltb→lt, all_below, all_below_sound,
}
use libwebsock.Base64.{char_of, encode_triple, encode_source}

char_of-positive : (v : ℕ) → v < 64 → 0 < char_of v
unfolding all_below char_of
char_of-positive v small =
    ltb→lt 0 (char_of v) (all_below_sound 64 (λ v. ltb 0 (char_of v)) v refl small)

pub encode_source-positive : (bs : List ℕ) → All (λ b. 0 < b) (encode_source bs)
unfolding encode_source encode_triple
encode_source-positive [] = tt
encode_source-positive (a ∷ []) =
    (char_of-positive _ (omega arith), (char_of-positive _ (omega arith), omega arith))
encode_source-positive (a ∷ b ∷ []) = (
  char_of-positive _ (omega arith),
  (char_of-positive _ (omega arith), (char_of-positive _ (omega arith), omega arith)),
)
encode_source-positive (a ∷ b ∷ c ∷ bs) = (
  char_of-positive _ (omega arith),
  (
    char_of-positive _ (omega arith),
    (
      char_of-positive _ (omega arith),
      (char_of-positive _ (omega arith), encode_source-positive bs),
    ),
  ),
)
