-- ===== src/Base64/Triples.antt =====
-- What the encoder makes of one to three bytes is decoded to them.
use libwebsock.Prelude.{
  ℕ, ◌+◌, ◌-◌, ◌*◌, ◌/◌, ◌%◌, ◌≤◌, ◌<◌, ◌≡◌, refl, ◌∙◌, ap, Bool, true, false, List, [], ◌∷◌,
  Option, none, some, arith, ◌==◌, ==_iff, all_below, all_below_sound, length, All, if◌then◌else◌,
  ◌&&◌,
}
use libwebsock.Dispatch.Masking.{Octets}
use libwebsock.Base64.{
  char_of, char_value, with_value, decoded, check_chars, big_value, value_bytes, encode_triple,
  encode_source, decode_triple,
}

is_value : Option ℕ → ℕ → Bool
is_value none v = false
is_value (some w) v = w == v

is_value→eq : (o : Option ℕ) (v : ℕ) → is_value o v ≡ true → o ≡ some v
unfolding is_value
is_value→eq (some w) v e = ap (λ n. some n) ((==_iff w v).0 e)
is_value→eq none v e = cc

-- The value of the character of a value.
value_of_char : (v : ℕ) → v < 64 → char_value (char_of v) ≡ some v
unfolding all_below is_value char_value char_of
value_of_char v small =
    is_value→eq (char_value (char_of v)) v
      (all_below_sound 64 (λ v. is_value (char_value (char_of v)) v) v refl small)

check_chars-value :
    (only : Bool) (n c : ℕ) (cs : List ℕ) (v : ℕ)
    → char_value c ≡ some v
    → check_chars only n (c ∷ cs) ≡ with_value v (check_chars false n cs)
unfolding check_chars
check_chars-value only n c cs v e =
    ap
      (λ (o : Option ℕ). elim o [
        | some w ↦ with_value w (check_chars false n cs)
        | none ↦ if only && c == 0x3d then with_value 0 (check_chars only (n - 1) cs) else none
      ])
      e

check_chars-padding :
    (n : ℕ) (cs : List ℕ)
    → check_chars true n (0x3d ∷ cs) ≡ with_value 0 (check_chars true (n - 1) cs)
unfolding check_chars char_value
check_chars-padding n cs = refl

abbrev chars_of : List ℕ → List ℕ
chars_of [] = []
chars_of (v ∷ vs) = char_of v ∷ chars_of vs

-- Characters of values are all kept.
check_chars-chars_of :
    (only : Bool) (n : ℕ) (vs : List ℕ)
    → All (λ v. v < 64) vs
    → check_chars only n (chars_of vs) ≡ some (n, vs)
unfolding check_chars
check_chars-chars_of only n [] small = refl
check_chars-chars_of only n (v ∷ vs) small =
    check_chars-value only n (char_of v) (chars_of vs) v (value_of_char v small.0)
    ∙ ap (with_value v) (check_chars-chars_of false n vs small.1)

-- The characters of one to three bytes, with their padding, are decoded to these bytes.
pub decode_triple-encode_source :
    (bs : List ℕ)
    → 1 ≤ length bs
    → length bs ≤ 3
    → Octets bs
    → decode_triple (encode_source bs) ≡ bs
unfolding encode_triple encode_source decode_triple big_value value_bytes
decode_triple-encode_source (a ∷ b ∷ c ∷ []) some_byte few octets =
    let v = (a * 256 + b) * 256 + c in
    let vs : List ℕ =
      (v % 64) ∷ (v / 64 % 64) ∷ (v / 64 / 64 % 64) ∷ (v / 64 / 64 / 64 % 64) ∷ [] in
    ap decoded (check_chars-chars_of true 3 vs (omega arith)) ∙ ground arith
decode_triple-encode_source (a ∷ b ∷ []) some_byte few octets =
    let v = (a * 256 + b) * 256 + 0 in
    let vs : List ℕ = (v / 64 % 64) ∷ (v / 64 / 64 % 64) ∷ (v / 64 / 64 / 64 % 64) ∷ [] in
    ap decoded (
      check_chars-padding 3 (chars_of vs)
      ∙ ap (with_value 0) (check_chars-chars_of true 2 vs (omega arith)))
    ∙ ground arith
decode_triple-encode_source (a ∷ []) some_byte few octets =
    let v = (a * 256 + 0) * 256 + 0 in
    let vs : List ℕ = (v / 64 / 64 % 64) ∷ (v / 64 / 64 / 64 % 64) ∷ [] in
    ap decoded (
      check_chars-padding 3 (0x3d ∷ chars_of vs)
      ∙ ap (with_value 0) (
          check_chars-padding 2 (chars_of vs)
          ∙ ap (with_value 0) (check_chars-chars_of true 1 vs (omega arith))))
    ∙ ground arith
decode_triple-encode_source [] some_byte few octets = absurd (omega arith)
decode_triple-encode_source (a ∷ b ∷ c ∷ d ∷ bs) some_byte few octets = absurd (omega arith)
