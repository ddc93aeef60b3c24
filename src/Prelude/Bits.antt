-- ===== src/Prelude/Bits.antt =====
-- Facts about `&`, `|` and `^`: checked over a byte by evaluation, and at every width by digits.
use Prim.Native.Nat.{ℕ, zero, suc, ◌/◌, ◌^◌, ◌≤◌, ◌<◌, max}
use Prim.Native.Nat.{bit_or, bit_xor, digits, bit_or-bitwise}
use mathlib.Core.Path.{◌≡◌, refl, sym}
use mathlib.Core.Bool.{false, Bool, true}
use native.Mathlib.Nat.{pow-suc}
use native.Mathlib.Omega.{arith}
use mathlib.Core.Logic.{inl, inr}
use libwebsock.Prelude.Tests.{ltb, ltb→lt, ◌==◌, ==_iff, if◌then◌else◌, Bool-cases}

-- A test at every number below a bound, from the greatest down.
unfoldable pub all_below : ℕ → (ℕ → Bool) → Bool
all_below zero test = true
all_below (suc top) test = if test top then all_below top test else false

pub all_below_sound :
    (bound : ℕ) (test : ℕ → Bool) (i : ℕ) → all_below bound test ≡ true → i < bound → test i ≡ true
unfolding all_below
all_below_sound (suc top) test i passed inside = elim (Bool-cases (i == top)) [
  | inl last ↦ let e : i ≡ top = (==_iff i top).0 last in ground (arith, e)
  | inr before ↦ all_below_sound top test i (ground arith) (ground (arith, before))
]
all_below_sound zero test i passed inside = absurd (omega arith)

-- Two functions that agree at every number below a bound.
pub eq_below :
    (n : ℕ) (f g : ℕ → ℕ) → all_below n (λ x. f x == g x) ≡ true → (x : ℕ) → x < n → f x ≡ g x
eq_below n f g h x lt = (==_iff (f x) (g x)).0 (all_below_sound n (λ x. f x == g x) x h lt)

-- What `|` computes, digit by digit, with a bound on the number of digits of its first argument.
abbrev union : ℕ → ℕ → ℕ → ℕ
union = digits (λ y. y) max

-- However many digits are looked at, none of the first number is lost.
le-union : (bound m n : ℕ) → m ≤ bound → m ≤ union bound m n
le-union bound zero n small = omega arith
le-union (suc bound) (suc m) n small =
    omega (arith, le-union bound (suc m / 2) (n / 2) (omega arith))
le-union zero (suc m) n small = absurd (omega arith)

-- The sum of the digits needs no more bits than the wider number.
union-lt : (w bound m n : ℕ) → m < 2 ^ w → n < 2 ^ w → union bound m n < 2 ^ w
union-lt w zero m n small_m small_n = small_n
union-lt w (suc bound) zero n small_m small_n = small_n
union-lt zero (suc bound) (suc m) n small_m small_n = absurd (omega arith)
union-lt (suc w) (suc bound) (suc m) n small_m small_n =
    let halved = pow-suc 2 w in
    omega (
      arith,
      halved,
      union-lt w bound (suc m / 2) (n / 2) (omega (arith, halved)) (omega (arith, halved)),
    )

-- `|` only sets bits.
pub le-bit_or : (m n : ℕ) → m ≤ bit_or m n
le-bit_or m n = omega (arith, bit_or-bitwise m n, le-union m m n (omega arith))

-- `|` of two numbers of `w` bits has `w` bits.
pub bit_or-lt : (w m n : ℕ) → m < 2 ^ w → n < 2 ^ w → bit_or m n < 2 ^ w
bit_or-lt w m n small_m small_n =
    omega (arith, bit_or-bitwise m n, union-lt w m m n small_m small_n)

-- Demasking twice with one key byte gives the byte back.
pub bit_xor_twice : (x k : ℕ) → x < 256 → k < 256 → bit_xor (bit_xor x k) k ≡ x
unfolding all_below
bit_xor_twice x k hx hk = sym (eq_below 256 (λ x. x) (λ x. bit_xor (bit_xor x k) k) row x hx)
  where
    row : all_below 256 (λ x. x == bit_xor (bit_xor x k) k) ≡ true
    row = all_below_sound 256 (λ k. all_below 256 (λ x. x == bit_xor (bit_xor x k) k)) k refl hk

-- `^` of two bytes is a byte.
pub bit_xor-lt : (x k : ℕ) → x < 256 → k < 256 → bit_xor x k < 256
unfolding all_below
bit_xor-lt x k hx hk =
    ltb→lt (bit_xor x k) 256 (all_below_sound 256 (λ x. ltb (bit_xor x k) 256) x row hx)
  where
    row : all_below 256 (λ x. ltb (bit_xor x k) 256) ≡ true
    row = all_below_sound 256 (λ k. all_below 256 (λ x. ltb (bit_xor x k) 256)) k refl hk
