-- ===== src/ByteOrder/Reversal.antt =====
-- What the 64-bit byte-order conversions do to the bytes of a number.
use libwebsock.Prelude.{
  ℕ, ◌+◌, ◌*◌, ◌/◌, ◌%◌, ◌^◌, ◌<◌, ◌≡◌, refl, ◌∙◌, ap, sym, [], ◌∷◌, arith, bit_and, bit_or,
}
use libwebsock.ByteOrder.{lws_htobe64, lws_be64toh, store64}
use libwebsock.ByteOrder.Digits.{and_mask, or_gap}
use libwebsock.Wire.{big_endian}
use mathlib.Core.Path.{ap₂}

-- A number by its bytes, the lowest first.
abbrev joined : (b0 b1 b2 b3 b4 b5 b6 b7 : ℕ) → ℕ
joined b0 b1 b2 b3 b4 b5 b6 b7 =
    b0
    + b1 * 2 ^ 8
    + b2 * 2 ^ 16
    + b3 * 2 ^ 24
    + b4 * 2 ^ 32
    + b5 * 2 ^ 40
    + b6 * 2 ^ 48
    + b7 * 2 ^ 56

masked_byte :
    (k high b low y : ℕ)
    → b < 256
    → low < 2 ^ k
    → y ≡ (high * 256 + b) * 2 ^ k + low
    → bit_and y (255 * 2 ^ k) ≡ b * 2 ^ k
masked_byte k high b low y byte small e =
    ap (λ y. bit_and y (255 * 2 ^ k)) e ∙ and_mask k high b low byte small

set_in :
    (k high b low y z : ℕ)
    → b < 256
    → low < 2 ^ k
    → y ≡ high * 256 * 2 ^ k + low
    → z ≡ b * 2 ^ k
    → bit_or y z ≡ (high * 256 + b) * 2 ^ k + low
set_in k high b low y z byte small e d = ap₂ bit_or e d ∙ or_gap k high b low byte small

module _ (b0 b1 b2 b3 b4 b5 b6 b7 : ℕ) (h0 : b0 < 256) (h1 : b1 < 256) (h2 : b2 < 256)
    (h3 : b3 < 256) (h4 : b4 < 256) (h5 : b5 < 256) (h6 : b6 < 256) (h7 : b7 < 256) where
  abbrev x : ℕ
  x = joined b0 b1 b2 b3 b4 b5 b6 b7

  -- The bytes are set one after the other: the lowest, the six in the middle, the highest.
  set_all :
      (y0 y1 y2 y3 y4 y5 y6 y7 : ℕ)
      → y0 ≡ b7
      → y1 ≡ b1 * 2 ^ 48
      → y2 ≡ b2 * 2 ^ 40
      → y3 ≡ b3 * 2 ^ 32
      → y4 ≡ b4 * 2 ^ 24
      → y5 ≡ b5 * 2 ^ 16
      → y6 ≡ b6 * 2 ^ 8
      → y7 ≡ b0 * 2 ^ 56
      → bit_or (bit_or (bit_or (bit_or (bit_or (bit_or (bit_or y0 y1) y2) y3) y4) y5) y6) y7
        ≡ joined b7 b6 b5 b4 b3 b2 b1 b0
  set_all y0 y1 y2 y3 y4 y5 y6 y7 e0 e1 e2 e3 e4 e5 e6 e7 =
      let c1 = bit_or y0 y1 in
      let c2 = bit_or c1 y2 in
      let c3 = bit_or c2 y3 in
      let c4 = bit_or c3 y4 in
      let c5 = bit_or c4 y5 in
      let c6 = bit_or c5 y6 in
      let a1 = set_in 48 0 b1 b7 y0 y1 h1 (omega arith) (omega (arith, e0)) e1 in
      let a2 = set_in 40 b1 b2 b7 c1 y2 h2 (omega arith) (omega (arith, a1)) e2 in
      let a3 = set_in 32 (b1 * 256 + b2) b3 b7 c2 y3 h3 (omega arith) (omega (arith, a2)) e3 in
      let a4 =
        set_in 24 ((b1 * 256 + b2) * 256 + b3) b4 b7 c3 y4 h4 (omega arith) (omega (arith, a3))
          e4 in
      let a5 =
        set_in 16 (((b1 * 256 + b2) * 256 + b3) * 256 + b4) b5 b7 c4 y5 h5 (omega arith)
          (omega (arith, a4)) e5 in
      let a6 =
        set_in 8 ((((b1 * 256 + b2) * 256 + b3) * 256 + b4) * 256 + b5) b6 b7 c5 y6 h6 (omega arith)
          (omega (arith, a5)) e6 in
      set_in 56 0 b0 (joined b7 b6 b5 b4 b3 b2 b1 0) c6 y7 h0 (omega arith) (omega (arith, a6)) e7
      ∙ omega arith

  reversed : lws_htobe64 x ≡ joined b7 b6 b5 b4 b3 b2 b1 b0
  unfolding lws_htobe64
  reversed =
      let top : x / 2 ^ 56 ≡ b7 = omega arith in
      let m1 =
        masked_byte 48 b2 b1 (b0 * 2 ^ 40) (x * 2 ^ 40 % 2 ^ 64) h1 (omega arith) (omega arith) in
      let m2 =
        masked_byte 40 (b4 * 256 + b3) b2 (b1 * 2 ^ 32 + b0 * 2 ^ 24) (x * 2 ^ 24 % 2 ^ 64) h2
          (omega arith) (omega arith) in
      let m3 =
        masked_byte 32 ((b6 * 256 + b5) * 256 + b4) b3 (b2 * 2 ^ 24 + b1 * 2 ^ 16 + b0 * 2 ^ 8)
          (x * 2 ^ 8 % 2 ^ 64) h3 (omega arith) (omega arith) in
      let m4 =
        masked_byte 24 ((b7 * 256 + b6) * 256 + b5) b4 (b3 * 2 ^ 16 + b2 * 2 ^ 8 + b1) (x / 2 ^ 8)
          h4 (omega arith) (omega arith) in
      let m5 =
        masked_byte 16 (b7 * 256 + b6) b5 (b4 * 2 ^ 8 + b3) (x / 2 ^ 24) h5 (omega arith)
          (omega arith) in
      let m6 = masked_byte 8 b7 b6 b5 (x / 2 ^ 40) h6 (omega arith) (omega arith) in
      let s7 : x * 2 ^ 56 % 2 ^ 64 ≡ b0 * 2 ^ 56 = omega arith in
      set_all _ _ _ _ _ _ _ _ top m1 m2 m3 m4 m5 m6 s7

-- The bytes of a number below 2^64.
abbrev byte : ℕ → ℕ → ℕ
byte x k = x / 2 ^ k % 256

rejoined :
    (x : ℕ)
    → x < 2 ^ 64
    → joined
        (byte x 0)
        (byte x 8)
        (byte x 16)
        (byte x 24)
        (byte x 32)
        (byte x 40)
        (byte x 48)
        (byte x 56)
      ≡ x
rejoined x h = omega arith

htobe64-reversed :
    (x : ℕ)
    → x < 2 ^ 64
    → lws_htobe64 x
      ≡ joined
          (byte x 56)
          (byte x 48)
          (byte x 40)
          (byte x 32)
          (byte x 24)
          (byte x 16)
          (byte x 8)
          (byte x 0)
htobe64-reversed x h =
    ap lws_htobe64 (sym (rejoined x h))
    ∙ reversed (byte x 0) (byte x 8) (byte x 16) (byte x 24) (byte x 32) (byte x 40) (byte x 48)
        (byte x 56) (omega arith) (omega arith) (omega arith) (omega arith) (omega arith)
        (omega arith) (omega arith) (omega arith)

be64toh-htobe64_same : (x : ℕ) → lws_be64toh x ≡ lws_htobe64 x
unfolding lws_be64toh lws_htobe64
be64toh-htobe64_same x = refl

store64-joined :
    (b0 b1 b2 b3 b4 b5 b6 b7 : ℕ)
    → b0 < 256
    → b1 < 256
    → b2 < 256
    → b3 < 256
    → b4 < 256
    → b5 < 256
    → b6 < 256
    → b7 < 256
    → store64 (joined b0 b1 b2 b3 b4 b5 b6 b7) ≡ b0 ∷ b1 ∷ b2 ∷ b3 ∷ b4 ∷ b5 ∷ b6 ∷ b7 ∷ []
store64-joined b0 b1 b2 b3 b4 b5 b6 b7 h0 h1 h2 h3 h4 h5 h6 h7 = ground arith

stored :
    (x : ℕ)
    → store64 (
        joined
          (byte x 56)
          (byte x 48)
          (byte x 40)
          (byte x 32)
          (byte x 24)
          (byte x 16)
          (byte x 8)
          (byte x 0))
      ≡ big_endian 8 x
unfolding big_endian
stored x =
    store64-joined (byte x 56) (byte x 48) (byte x 40) (byte x 32) (byte x 24) (byte x 16)
      (byte x 8) (byte x 0) (omega arith) (omega arith) (omega arith) (omega arith) (omega arith)
      (omega arith) (omega arith) (omega arith)
    ∙ ground arith

-- `lws_be64toh` undoes `lws_htobe64` on every 64-bit number, and a number so converted stands in
-- memory as its eight bytes with the high byte first.
pub be64toh-htobe64 :
    (x : ℕ)
    → x < 2 ^ 64
    → (lws_be64toh (lws_htobe64 x) ≡ x) × (store64 (lws_htobe64 x) ≡ big_endian 8 x)
unfolding big_endian
be64toh-htobe64 x h = (
  be64toh-htobe64_same (lws_htobe64 x)
      ∙ ap lws_htobe64 (htobe64-reversed x h)
      ∙ reversed (byte x 56) (byte x 48) (byte x 40) (byte x 32) (byte x 24) (byte x 16) (byte x 8)
          (byte x 0) (omega arith) (omega arith) (omega arith) (omega arith) (omega arith)
          (omega arith) (omega arith) (omega arith)
      ∙ rejoined x h,
  ap store64 (htobe64-reversed x h) ∙ stored x,
)
