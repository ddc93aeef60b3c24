-- ===== src/ByteOrder/Digits.antt =====
-- `&` and `|` on numbers cut at the same digit: each part is worked on by itself.
use Prim.Native.Nat.{max, digits, bitwise, bit_and-bitwise, bit_or-bitwise}
use mathlib.Core.Path.{ap₂}
use native.Mathlib.Nat.{pow-suc}
use libwebsock.Prelude.{
  ℕ, zero, suc, ◌+◌, ◌*◌, ◌/◌, ◌%◌, ◌^◌, ◌≤◌, ◌<◌, ◌≡◌, refl, ◌∙◌, ap, arith, min, bit_and, bit_or,
  eq_below, all_below,
}

double : (q k : ℕ) → q * 2 ^ suc k ≡ 2 * (q * 2 ^ k)
double q k = omega (arith, ap (λ t. q * t) (pow-suc 2 k))

module _ (z : ℕ → ℕ) (f : ℕ → ℕ → ℕ) where
  -- A count of digits that covers the first number is as good as a greater one.
  same_count : (m n a b : ℕ) → n ≤ m → a ≤ n → digits z f m a b ≡ digits z f n a b
  same_count zero zero a b more covers = refl
  same_count zero (suc n) a b more covers = absurd (omega arith)
  same_count (suc m) zero zero b more covers = refl
  same_count (suc m) zero (suc a) b more covers = absurd (omega arith)
  same_count (suc m) (suc n) zero b more covers = refl
  same_count (suc m) (suc n) (suc a) b more covers =
      ap (λ t. t * 2 + f (suc a % 2) (b % 2))
        (same_count m n (suc a / 2) (b / 2) (omega arith) (omega arith))

  lowest_digit :
      (a b : ℕ)
      → bitwise z f (suc a) b ≡ bitwise z f (suc a / 2) (b / 2) * 2 + f (suc a % 2) (b % 2)
  lowest_digit a b =
      ap (λ t. t * 2 + f (suc a % 2) (b % 2))
        (same_count a (suc a / 2) (suc a / 2) (b / 2) (omega arith) (omega arith))

and_lowest : (a b : ℕ) → bit_and a b ≡ bit_and (a / 2) (b / 2) * 2 + min (a % 2) (b % 2)
and_lowest zero b = simp bit_and-bitwise (omega arith)
and_lowest (suc a) b = simp bit_and-bitwise (lowest_digit (λ y. 0) min a b)

or_lowest : (a b : ℕ) → bit_or a b ≡ bit_or (a / 2) (b / 2) * 2 + max (a % 2) (b % 2)
or_lowest zero b = simp bit_or-bitwise (omega arith)
or_lowest (suc a) b = simp bit_or-bitwise (lowest_digit (λ y. y) max a b)

-- An operation that goes digit by digit.
module _ (op : ℕ → ℕ → ℕ) (f : ℕ → ℕ → ℕ) (nothing : op 0 0 ≡ 0)
    (lowest : (a b : ℕ) → op a b ≡ op (a / 2) (b / 2) * 2 + f (a % 2) (b % 2)) where
  parts :
      (k high low high' low' : ℕ)
      → low < 2 ^ k
      → low' < 2 ^ k
      → op (high * 2 ^ k + low) (high' * 2 ^ k + low') ≡ op high high' * 2 ^ k + op low low'
  parts zero high low high' low' small small' =
      let e : high * 2 ^ 0 + low ≡ high = omega arith in
      let e' : high' * 2 ^ 0 + low' ≡ high' = omega arith in
      let n : low ≡ 0 = omega arith in
      let n' : low' ≡ 0 = omega arith in ap₂ op e e' ∙ omega (arith, ap₂ op n n', nothing)
  parts (suc k) high low high' low' small small' =
      let doubled = λ (q : ℕ). double q k in
      let e : (high * 2 ^ suc k + low) / 2 ≡ high * 2 ^ k + low / 2 = omega (arith, doubled high) in
      let e' : (high' * 2 ^ suc k + low') / 2 ≡ high' * 2 ^ k + low' / 2 =
        omega (arith, doubled high') in
      let r : (high * 2 ^ suc k + low) % 2 ≡ low % 2 = omega (arith, doubled high) in
      let r' : (high' * 2 ^ suc k + low') % 2 ≡ low' % 2 = omega (arith, doubled high') in
      let two = pow-suc 2 k in
      omega (
        arith,
        lowest (high * 2 ^ suc k + low) (high' * 2 ^ suc k + low'),
        ap₂ op e e',
        ap₂ f r r',
        parts k high (low / 2) high' (low' / 2) (omega (arith, two)) (omega (arith, two)),
        lowest low low',
        doubled (op high high'),
      )

pub and_parts :
    (k high low high' low' : ℕ)
    → low < 2 ^ k
    → low' < 2 ^ k
    → bit_and (high * 2 ^ k + low) (high' * 2 ^ k + low')
      ≡ bit_and high high' * 2 ^ k + bit_and low low'
and_parts = parts bit_and min refl and_lowest

pub or_parts :
    (k high low high' low' : ℕ)
    → low < 2 ^ k
    → low' < 2 ^ k
    → bit_or (high * 2 ^ k + low) (high' * 2 ^ k + low')
      ≡ bit_or high high' * 2 ^ k + bit_or low low'
or_parts = parts bit_or max refl or_lowest

-- `x & 0` and `x | 0`, by the digits of `x`.
and_zero : (bound x : ℕ) → x ≤ bound → bit_and x 0 ≡ 0
and_zero zero x h = let e : x ≡ 0 = omega arith in rw e refl
and_zero (suc bound) zero h = refl
and_zero (suc bound) (suc x) h =
    omega (arith, and_lowest (suc x) 0, and_zero bound (suc x / 2) (omega arith))

or_zero : (bound x : ℕ) → x ≤ bound → bit_or x 0 ≡ x
or_zero zero x h = let e : x ≡ 0 = omega arith in rw e refl
or_zero (suc bound) zero h = refl
or_zero (suc bound) (suc x) h =
    omega (arith, or_lowest (suc x) 0, or_zero bound (suc x / 2) (omega arith))

zero_or : (x : ℕ) → bit_or 0 x ≡ x
zero_or x = simp bit_or-bitwise refl

byte_and : (x : ℕ) → x < 256 → bit_and x 255 ≡ x
unfolding all_below
byte_and x h = eq_below 256 (λ x. bit_and x 255) (λ x. x) refl x h

last_byte : (high b : ℕ) → b < 256 → bit_and (high * 256 + b) 255 ≡ b
last_byte high b byte = omega (
  arith,
  and_parts 8 high b 0 255 (omega arith) (omega arith),
  and_zero high high (omega arith),
  byte_and b byte,
)

-- A mask of one byte at the digit `k` keeps that byte.
pub and_mask :
    (k high b low : ℕ)
    → b < 256
    → low < 2 ^ k
    → bit_and ((high * 256 + b) * 2 ^ k + low) (255 * 2 ^ k) ≡ b * 2 ^ k
and_mask k high b low byte small =
    let e : 255 * 2 ^ k ≡ 255 * 2 ^ k + 0 = omega arith in
    let kept : bit_and (high * 256 + b) 255 * 2 ^ k ≡ b * 2 ^ k =
      ap (λ t. t * 2 ^ k) (last_byte high b byte) in
    ap (bit_and ((high * 256 + b) * 2 ^ k + low)) e
    ∙ omega (
      arith,
      and_parts k (high * 256 + b) low 255 0 small (omega (arith, small)),
      and_zero low low (omega arith),
      kept,
    )

set_byte : (high b : ℕ) → b < 256 → bit_or (high * 256) b ≡ high * 256 + b
set_byte high b byte =
    let e : high * 256 ≡ high * 2 ^ 8 + 0 = omega arith in
    let e' : b ≡ 0 * 2 ^ 8 + b = omega arith in
    ap₂ bit_or e e'
    ∙ omega (
      arith,
      or_parts 8 high 0 0 b (omega arith) (omega arith),
      or_zero high high (omega arith),
      zero_or b,
    )

-- A byte at the digit `k` is set in a gap of a number.
pub or_gap :
    (k high b low : ℕ)
    → b < 256
    → low < 2 ^ k
    → bit_or (high * 256 * 2 ^ k + low) (b * 2 ^ k) ≡ (high * 256 + b) * 2 ^ k + low
or_gap k high b low byte small =
    let e : b * 2 ^ k ≡ b * 2 ^ k + 0 = omega arith in
    let kept : bit_or (high * 256) b * 2 ^ k ≡ (high * 256 + b) * 2 ^ k =
      ap (λ t. t * 2 ^ k) (set_byte high b byte) in
    ap (bit_or (high * 256 * 2 ^ k + low)) e
    ∙ omega (
      arith,
      or_parts k (high * 256) low b 0 small (omega (arith, small)),
      or_zero low low (omega arith),
      kept,
    )
