-- ===== src/Safety/Text.antt =====
-- Bytes with a NUL behind them, up to the first NUL among them.
use libwebsock.Prelude.{
  ℕ, ◌≤◌, ◌<◌, ◌≡◌, refl, ap, List, [], ◌∷◌, ◌++◌, arith, All, length, Safely, ◌==◌, Bool-cases,
  inl, inr,
}
use libwebsock.Memory.{c_string}
use libwebsock.Memory.Blocks.{c_string_lem}
use libwebsock.Utf8.{validate_utf8_sequence}
use libwebsock.Utf8.Grammar.{IsByte}
use libwebsock.Utf8.Validity.{validate-run}
use libwebsock.Dispatch.Masking.{Octets}

pub record NulWithin (n : ℕ) (object : List ℕ) : Type 0 where
  pub front : List ℕ
  pub back : List ℕ
  pub cut : object ≡ front ++ 0 ∷ back
  pub bytes : All IsByte front
  pub short : length front ≤ n

pub first_nul : (bs rest : List ℕ) → Octets bs → NulWithin (length bs) (bs ++ 0 ∷ rest)
first_nul [] rest h = record {
  front = [];
  back = rest;
  cut = refl;
  bytes = tt;
  short = omega arith;
}
first_nul (b ∷ bs) rest h = elim (Bool-cases (b == 0)) [
  | inl nul ↦
      let e : b ≡ 0 = ground arith in
      record { front = []; back = bs ++ 0 ∷ rest; cut = rw e refl; bytes = tt; short = omega arith }
  | inr other ↦
      let later = first_nul bs rest h.1 in
      record {
        front = b ∷ later.front;
        back = later.back;
        cut = ap (λ l. b ∷ l) later.cut;
        bytes = ((ground arith, h.0), later.bytes);
        short = omega (arith, later.short);
      }
]

module _ (n : ℕ) (object : List ℕ) (nul : NulWithin n object) where
  pub validate_utf8_sequence-Safely : Safely (λ valid. Unit {0}) (validate_utf8_sequence object)
  validate_utf8_sequence-Safely = rw (nul.cut, validate-run nul.front nul.back nul.bytes) tt

  pub c_string-Safely : Safely (λ text. length text ≤ n) (c_string object)
  c_string-Safely =
      rw (nul.cut, c_string_lem nul.front nul.back (positive nul.front nul.bytes)) nul.short
    where
      positive : (bs : List ℕ) → All IsByte bs → All (λ b. 0 < b) bs
      positive [] h = tt
      positive (b ∷ bs) h = (h.0.0, positive bs h.1)
