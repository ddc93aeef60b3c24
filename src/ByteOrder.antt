-- ===== src/ByteOrder.antt =====
-- src/util.c, the byte-order conversions, for a little-endian machine.
pub mod Involution
pub mod Digits
pub mod Reversal
use libwebsock.Prelude.{ℕ, ◌*◌, ◌/◌, ◌%◌, ◌^◌, List, [], ◌∷◌, bit_and, bit_or}

unfoldable pub lws_htobe16 : ℕ → ℕ
lws_htobe16 x = bit_or (bit_and x 0x00ff * 2 ^ 8) (bit_and x 0xff00 / 2 ^ 8)

unfoldable pub lws_be16toh : ℕ → ℕ
lws_be16toh x = bit_or (bit_and x 0x00ff * 2 ^ 8) (bit_and x 0xff00 / 2 ^ 8)

-- The two bytes of a `uint16_t` in the machine's memory.
abbrev pub store16 : ℕ → List ℕ
store16 x = (x % 256) ∷ (x / 256 % 256) ∷ []

-- `x` is a `uint64_t`: what a shift to the left moves out of it is lost.
unfoldable pub lws_htobe64 : ℕ → ℕ
lws_htobe64 x =
    bit_or
      (bit_or
        (bit_or
          (bit_or
            (bit_or
              (bit_or (bit_or (x / 2 ^ 56) (bit_and (x * 2 ^ 40 % 2 ^ 64) 0x00ff000000000000))
                (bit_and (x * 2 ^ 24 % 2 ^ 64) 0x0000ff0000000000))
              (bit_and (x * 2 ^ 8 % 2 ^ 64) 0x000000ff00000000))
            (bit_and (x / 2 ^ 8) 0x00000000ff000000))
          (bit_and (x / 2 ^ 24) 0x0000000000ff0000))
        (bit_and (x / 2 ^ 40) 0x000000000000ff00))
      (x * 2 ^ 56 % 2 ^ 64)

unfoldable pub lws_be64toh : ℕ → ℕ
lws_be64toh x =
    bit_or
      (bit_or
        (bit_or
          (bit_or
            (bit_or
              (bit_or (bit_or (x / 2 ^ 56) (bit_and (x * 2 ^ 40 % 2 ^ 64) 0x00ff000000000000))
                (bit_and (x * 2 ^ 24 % 2 ^ 64) 0x0000ff0000000000))
              (bit_and (x * 2 ^ 8 % 2 ^ 64) 0x000000ff00000000))
            (bit_and (x / 2 ^ 8) 0x00000000ff000000))
          (bit_and (x / 2 ^ 24) 0x0000000000ff0000))
        (bit_and (x / 2 ^ 40) 0x000000000000ff00))
      (x * 2 ^ 56 % 2 ^ 64)

-- The eight bytes of a `uint64_t` in the machine's memory.
abbrev pub store64 : ℕ → List ℕ
store64 x =
    (x % 256)
    ∷ (x / 2 ^ 8 % 256)
    ∷ (x / 2 ^ 16 % 256)
    ∷ (x / 2 ^ 24 % 256)
    ∷ (x / 2 ^ 32 % 256)
    ∷ (x / 2 ^ 40 % 256)
    ∷ (x / 2 ^ 48 % 256)
    ∷ (x / 2 ^ 56 % 256)
    ∷ []
