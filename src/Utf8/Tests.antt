-- ===== src/Utf8/Tests.antt =====
-- Runs of the UTF-8 decoder, and the theorem on it at a text.
use libwebsock.Prelude.{ℕ, ◌≡◌, refl, ◌↔◌, true, false, List, [], ◌∷◌, ◌++◌, arith, ok, fault}
use libwebsock.Utf8.{utf8d, validate_utf8_sequence}
use libwebsock.Utf8.Validity.{IsUtf8, validate_iff}

-- "é€" and then U+1F600.
abbrev mixed_text : List ℕ
mixed_text = 0xc3 ∷ 0xa9 ∷ 0xe2 ∷ 0x82 ∷ 0xac ∷ 0xf0 ∷ 0x9f ∷ 0x98 ∷ 0x80 ∷ []

-- A surrogate is refused, and a buffer with no NUL is read past its end.
verdicts :
    (validate_utf8_sequence (mixed_text ++ 0 ∷ []) ≡ ok true)
    × (validate_utf8_sequence (0xed ∷ 0xa0 ∷ 0x80 ∷ 0 ∷ []) ≡ ok false)
    × (validate_utf8_sequence (0x41 ∷ []) ≡ fault)
unfolding validate_utf8_sequence utf8d
verdicts = (refl, refl, refl)

validate_iff_example :
    ((validate_utf8_sequence (mixed_text ++ 0 ∷ []) ≡ ok true) ↔ IsUtf8 mixed_text)
    × ((validate_utf8_sequence (mixed_text ++ 0 ∷ []) ≡ ok false) ↔ ¬ IsUtf8 mixed_text)
validate_iff_example = validate_iff mixed_text [] (omega arith)
