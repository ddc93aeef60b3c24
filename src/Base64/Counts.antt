-- ===== src/Base64/Counts.antt =====
-- How many bytes a quadruple of characters comes to.
use libwebsock.Prelude.{
  ℕ, zero, suc, ◌-◌, ◌/◌, ◌%◌, ◌≤◌, ◌≡◌, refl, true, false, Bool, List, [], ◌∷◌, arith, Option,
  none, some, length, length-append, Bool-cases, inl, inr, ◌&&◌, ◌==◌, if◌then◌else◌,
}
use libwebsock.Base64.{char_value, check_chars, with_value, decoded, value_bytes, decode_triple}

length-value_bytes : (n v : ℕ) → length (value_bytes n v) ≡ n
unfolding value_bytes
length-value_bytes zero v = refl
length-value_bytes (suc n) v =
    omega (
      arith,
      length-append (value_bytes n (v / 256)) (v % 256 ∷ []),
      length-value_bytes n (v / 256),
    )

-- The number of bytes in what the check of the characters finds.
abbrev count_of : Option (ℕ × List ℕ) → ℕ
count_of none = 0
count_of (some (bytes, vs)) = bytes

length-decoded : (o : Option (ℕ × List ℕ)) → length (decoded o) ≡ count_of o
length-decoded none = refl
length-decoded (some (bytes, vs)) = length-value_bytes bytes _

with_value-count : (v : ℕ) (o : Option (ℕ × List ℕ)) → count_of (with_value v o) ≡ count_of o
with_value-count v none = refl
with_value-count v (some (bytes, vs)) = refl

char_bytes :
    (only : Bool) (c bytes : ℕ) (kept padded : Option (ℕ × List ℕ)) (o : Option ℕ)
    → count_of kept ≤ bytes
    → count_of padded ≤ bytes - 1
    → count_of (elim o [
      | some v ↦ with_value v kept
      | none ↦ if only && c == 0x3d then with_value 0 padded else none
    ])
      ≤ bytes
char_bytes only c bytes kept padded (some v) k p = omega (arith, with_value-count v kept, k)
char_bytes only c bytes kept padded none k p = elim (Bool-cases (only && c == 0x3d)) [
  | inl equals ↦ rw equals (omega (arith, with_value-count 0 padded, p))
  | inr other ↦ rw other (omega arith)
]

check_chars-count :
    (only : Bool) (bytes : ℕ) (cs : List ℕ) → count_of (check_chars only bytes cs) ≤ bytes
unfolding check_chars
check_chars-count only bytes [] = omega arith
check_chars-count only bytes (c ∷ cs) =
    char_bytes only c bytes _ _ (char_value c) (check_chars-count false bytes cs)
      (check_chars-count only (bytes - 1) cs)

-- A quadruple that ends in "=" comes to fewer than three bytes.
pub padded-bytes : (p q r : ℕ) → length (decode_triple (p ∷ q ∷ r ∷ 0x3d ∷ [])) ≤ 2
unfolding decode_triple check_chars char_value
padded-bytes p q r = omega (
  arith,
  length-decoded (with_value 0 (check_chars true 2 (r ∷ q ∷ p ∷ []))),
  with_value-count 0 (check_chars true 2 (r ∷ q ∷ p ∷ [])),
  check_chars-count true 2 (r ∷ q ∷ p ∷ []),
)
