-- ===== src/ByteOrder/Involution.antt =====
-- What the byte-order conversions do to the bytes of a number.
use libwebsock.Prelude.{
  ℕ, ◌+◌, ◌*◌, ◌/◌, ◌%◌, ◌^◌, ◌<◌, ◌≡◌, refl, [], ◌∷◌, arith, ◌==◌, ==_iff, all_below,
  all_below_sound,
}
use libwebsock.ByteOrder.{lws_htobe16, lws_be16toh, store16}

pub htobe16-swap : (x : ℕ) → x < 2 ^ 16 → lws_htobe16 x ≡ x % 256 * 256 + x / 256
unfolding all_below lws_htobe16
htobe16-swap x h =
    (==_iff (lws_htobe16 x) (x % 256 * 256 + x / 256)).0
      (all_below_sound (2 ^ 16) (λ x. lws_htobe16 x == x % 256 * 256 + x / 256) x refl h)

be16toh-htobe16_same : (x : ℕ) → lws_be16toh x ≡ lws_htobe16 x
unfolding lws_be16toh lws_htobe16
be16toh-htobe16_same x = refl

-- `lws_be16toh` undoes `lws_htobe16` on every 16-bit number, and a number so converted stands in
-- memory with its high byte first.
pub be16toh-htobe16 :
    (x : ℕ)
    → x < 2 ^ 16
    → (lws_be16toh (lws_htobe16 x) ≡ x) × (store16 (lws_htobe16 x) ≡ (x / 256) ∷ (x % 256) ∷ [])
be16toh-htobe16 x h = ground (
  arith,
  be16toh-htobe16_same (lws_htobe16 x),
  htobe16-swap x,
  htobe16-swap (x % 256 * 256 + x / 256),
)
