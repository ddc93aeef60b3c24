-- ===== src/Utf8/Validity.antt =====
-- `validate_utf8_sequence` against RFC 3629.
use libwebsock.Prelude.{
  ℕ, ◌≡◌, ◌↔◌, Bool, true, false, List, ◌∷◌, ◌++◌, arith, All, Bool-cases, inl, inr, Outcome, ok,
  sym, ◌∙◌, ap,
}
use libwebsock.Utf8.{validate_utf8_sequence}
use libwebsock.Utf8.Grammar.{IsByte, Scalar, encode_all}
use libwebsock.Utf8.Steps.{run, validate_from-run}
use libwebsock.Utf8.Runs.{run_iff}

-- Text that is the UTF-8 encoding of a list of scalar values.
abbrev pub IsUtf8 : List ℕ → Type 0
IsUtf8 bs = (cs : List ℕ) × All Scalar cs × (encode_all cs ≡ bs)

abbrev verdict : Outcome Bool → Bool
verdict (ok b) = b
verdict _ = false

pub validate-run :
    (bs rest : List ℕ) → All IsByte bs → validate_utf8_sequence (bs ++ 0 ∷ rest) ≡ ok (run 0 bs)
unfolding validate_utf8_sequence
validate-run bs rest all = validate_from-run 0 0 bs rest (omega arith) all

-- At a NUL-terminated string of bytes `validate_utf8_sequence` returns without a fault: 1 exactly
-- when the bytes before the NUL are the UTF-8 encoding of Unicode scalar values, as RFC 3629
-- defines it (no surrogates, no overlong forms, nothing above U+10FFFF), and 0 otherwise.
pub validate_iff :
    (bs rest : List ℕ)
    → All IsByte bs
    → ((validate_utf8_sequence (bs ++ 0 ∷ rest) ≡ ok true) ↔ IsUtf8 bs)
      × ((validate_utf8_sequence (bs ++ 0 ∷ rest) ≡ ok false) ↔ ¬ IsUtf8 bs)
validate_iff bs rest all = (
  (λ e. (run_iff bs).0 (ap verdict (sym ran ∙ e)), λ u. ran ∙ ap ok ((run_iff bs).1 u)),
  (λ e u. cc (ran, e, (run_iff bs).1 u), rejects),
)
  where
    ran : validate_utf8_sequence (bs ++ 0 ∷ rest) ≡ ok (run 0 bs)
    ran = validate-run bs rest all

    rejects : ¬ IsUtf8 bs → validate_utf8_sequence (bs ++ 0 ∷ rest) ≡ ok false
    rejects no_text = elim (Bool-cases (run 0 bs)) [
      | inl accepted ↦ absurd (no_text ((run_iff bs).0 accepted))
      | inr rejected ↦ ran ∙ ap ok rejected
    ]
