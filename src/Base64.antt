-- ===== src/Base64.antt =====
-- src/base64.c: the encoder and the decoder.
pub mod Triples
pub mod Target
pub mod Characters
pub mod Decode
pub mod Counts
pub mod Ends
use libwebsock.Prelude.{
  ℕ, zero, suc, ◌+◌, ◌-◌, ◌*◌, ◌/◌, ◌%◌, ◌^◌, Bool, true, false, ◌&&◌, List, [], ◌∷◌, ◌++◌, Option,
  none, some, Outcome, ok, fault, not, leb, ltb, ◌==◌, if◌then◌else◌, get_or, length, ℤ, pos, ◌>>=◌,
}
use libwebsock.Memory.{Allocator, write, lws_malloc, c_string}

-- `BASE64_CHARS`
abbrev pub base64_chars : List ℕ
base64_chars =
    65 ∷ 66 ∷ 67 ∷ 68 ∷ 69 ∷ 70 ∷ 71 ∷ 72 ∷ 73 ∷ 74 ∷ 75 ∷ 76 ∷ 77 ∷ 78 ∷ 79 ∷ 80 ∷ 81 ∷ 82 ∷ 83
    ∷ 84 ∷ 85 ∷ 86 ∷ 87 ∷ 88 ∷ 89 ∷ 90 ∷ 97 ∷ 98 ∷ 99 ∷ 100 ∷ 101 ∷ 102 ∷ 103 ∷ 104 ∷ 105 ∷ 106
    ∷ 107 ∷ 108 ∷ 109 ∷ 110 ∷ 111 ∷ 112 ∷ 113 ∷ 114 ∷ 115 ∷ 116 ∷ 117 ∷ 118 ∷ 119 ∷ 120 ∷ 121 ∷ 122
    ∷ 48 ∷ 49 ∷ 50 ∷ 51 ∷ 52 ∷ 53 ∷ 54 ∷ 55 ∷ 56 ∷ 57 ∷ 43 ∷ 47 ∷ []

-- `BASE64_CHARS[value]`, for a value below 64.
unfoldable pub char_of : ℕ → ℕ
char_of value = get_or base64_chars value 0

-- `_base64_encode_triple`
unfoldable pub encode_triple : ℕ → ℕ → ℕ → List ℕ
encode_triple a b c =
    let triple_value = (a * 256 + b) * 256 + c in
    char_of (triple_value / 64 / 64 / 64 % 64)
    ∷ char_of (triple_value / 64 / 64 % 64)
    ∷ char_of (triple_value / 64 % 64)
    ∷ char_of (triple_value % 64)
    ∷ []

-- The last two characters of a quadruple, replaced by `=`.
abbrev pub pad_last : List ℕ → List ℕ
pad_last (p ∷ q ∷ r ∷ _ ∷ []) = p ∷ q ∷ r ∷ 0x3d ∷ []
pad_last l = l

abbrev pub pad_two : List ℕ → List ℕ
pad_two (p ∷ q ∷ _ ∷ _ ∷ []) = p ∷ q ∷ 0x3d ∷ 0x3d ∷ []
pad_two l = l

-- All full triples, and the last one or two bytes.
unfoldable pub encode_source : List ℕ → List ℕ
unfolding encode_triple
encode_source [] = []
encode_source (a ∷ []) = pad_two (encode_triple a 0 0)
encode_source (a ∷ b ∷ []) = pad_last (encode_triple a b 0)
encode_source (a ∷ b ∷ c ∷ source) = encode_triple a b c ++ encode_source source

-- The target holds the characters and a NUL; the guard's subtraction wraps for a length of 0.
unfoldable pub base64_encode : List ℕ → List ℕ → ℕ → Outcome (List ℕ × ℤ)
base64_encode source target targetlen =
    if ltb ((targetlen + 2 ^ 64 - 1) % 2 ^ 64) ((length source + 2) / 3 * 4)
    then ok (target, pos 0)
    else write target 0 (encode_source source ++ 0 ∷ []) >>= (λ written. ok (written, pos 1))

-- `_base64_char_value`; `none` is -1.
unfoldable pub char_value : ℕ → Option ℕ
char_value c =
    if leb 65 c && leb c 90
    then some (c - 65)
    else if leb 97 c && leb c 122
    then some (c - 97 + 26)
    else if leb 48 c && leb c 57
    then some (c - 48 + 52)
    else if c == 43
    then some 62
    else if c == 47
    then some 63
    else none

abbrev pub with_value : ℕ → Option (ℕ × List ℕ) → Option (ℕ × List ℕ)
with_value v none = none
with_value v (some (bytes, vs)) = some (bytes, v ∷ vs)

-- The loop from the last character to the first: `bytes_to_decode` and the values. Below zero,
-- `bytes_to_decode` counts as 0, as the code sees to after the loop.
unfoldable pub check_chars : Bool → ℕ → List ℕ → Option (ℕ × List ℕ)
check_chars only_equals_yet bytes [] = some (bytes, [])
check_chars only_equals_yet bytes (c ∷ cs) =
    let padded = check_chars only_equals_yet (bytes - 1) cs in
    let kept = check_chars false bytes cs in
    elim (char_value c) [
      | some v ↦ with_value v kept
      | none ↦ if only_equals_yet && c == 0x3d then with_value 0 padded else none
    ]

-- The big value, from the last partial value to the first.
unfoldable pub big_value : List ℕ → ℕ
big_value [] = 0
big_value (v ∷ vs) = big_value vs * 64 + v

-- `result[i] = triple_value % 256; triple_value /= 256`, from the last byte down.
unfoldable pub value_bytes : ℕ → ℕ → List ℕ
value_bytes zero triple_value = []
value_bytes (suc n) triple_value = value_bytes n (triple_value / 256) ++ triple_value % 256 ∷ []

abbrev pub decoded : Option (ℕ × List ℕ) → List ℕ
decoded none = []
decoded (some (bytes, vs)) = value_bytes bytes (big_value vs / 256 ^ (3 - bytes))

-- `_base64_decode_triple`: the bytes of the result; their number is what it returns.
unfoldable pub decode_triple : List ℕ → List ℕ
decode_triple (c0 ∷ c1 ∷ c2 ∷ c3 ∷ []) = decoded (check_chars true 3 (c3 ∷ c2 ∷ c1 ∷ c0 ∷ []))
decode_triple _ = []

-- `*tmpptr != '=' && _base64_char_value(*tmpptr) < 0`
unfoldable pub is_skipped : ℕ → Bool
is_skipped b = not (b == 0x3d) && (elim (char_value b) [ some v ↦ false | none ↦ true ])

-- The two loops of `base64_decode`, a character at a time, with the characters of the quadruple so
-- far: the target and `converted`, or -1. Behind the last character there is nothing to be read.
unfoldable pub decode_loop : List ℕ → List ℕ → List ℕ → ℕ → ℕ → Outcome (List ℕ × Option ℕ)
decode_loop quadruple [] target targetlen converted = fault
decode_loop quadruple (b ∷ bs) target targetlen converted =
    let result = decode_triple (quadruple ++ b ∷ []) in
    let skipped = decode_loop quadruple bs target targetlen converted in
    let more = decode_loop (quadruple ++ b ∷ []) bs target targetlen converted in
    let put = write target converted result >>= (λ written.
      let rest =
        decode_loop [] bs written (targetlen - length result) (converted + length result) in
      if length result == 3 then rest else ok (written, some (converted + length result))) in
    if is_skipped b
    then skipped
    else if ltb (length quadruple) 3
    then more
    else if ltb targetlen (length result)
    then ok (target, none)
    else put

-- The copy of the source with "====" and a NUL behind it.
unfoldable pub base64_decode : Allocator → List ℕ → List ℕ → ℕ → Outcome (List ℕ × Option ℕ)
base64_decode mem source target targetlen = do
  text ← c_string source
  src ← lws_malloc mem ((length text + 5) % 2 ^ 64)
  decode_loop [] (text ++ 0x3d ∷ 0x3d ∷ 0x3d ∷ 0x3d ∷ 0 ∷ []) target targetlen 0
