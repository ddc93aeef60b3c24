-- ===== src/Handshake/Supported.antt =====
-- `strcmp` against the supported protocols is membership among them.
use mathlib.Core.List.{Memᴰ}
use mathlib.Core.List.Memᴰ
use libwebsock.Prelude.{ℕ, ◌≡◌, refl, true, false, List, [], ◌∷◌, arith, Bool-cases, inl, inr}
use libwebsock.CStrings.{equal}
use libwebsock.Handshake.{is_supported}

equal_same : (xs ys : List ℕ) → (equal xs ys ≡ true) → xs ≡ ys
unfolding equal
equal_same [] [] e = refl
equal_same [] (y ∷ ys) e = absurd (ground arith)
equal_same (x ∷ xs) [] e = absurd (ground arith)
equal_same (x ∷ xs) (y ∷ ys) e =
    let head : x ≡ y = ground arith in
    let tail : equal xs ys ≡ true = ground arith in rw (head, equal_same xs ys tail) refl

equal_refl : (xs : List ℕ) → equal xs xs ≡ true
unfolding equal
equal_refl [] = refl
equal_refl (x ∷ xs) = ground (arith, equal_refl xs)

pub is_supported-Mem :
    (entries : List (List ℕ)) (tok : List ℕ) → is_supported entries tok ≡ true → Memᴰ tok entries
unfolding is_supported
is_supported-Mem [] tok e = absurd (ground arith)
is_supported-Mem (entry ∷ entries) tok e = elim (Bool-cases (equal tok entry)) [
  | inl same ↦ Memᴰ.head (equal_same tok entry same)
  | inr other ↦ Memᴰ.tail (is_supported-Mem entries tok (ground arith))
]

Mem-is_supported :
    (entries : List (List ℕ)) (tok : List ℕ) → Memᴰ tok entries → is_supported entries tok ≡ true
unfolding is_supported
Mem-is_supported [] tok m = absurd (Memᴰ.not-nil m)
Mem-is_supported (entry ∷ entries) tok m = elim (Memᴰ.cases_cons m) [
  | inl same ↦ rw (same, equal_refl entry) refl
  | inr later ↦ grind (arith, Mem-is_supported entries tok later)
]

pub not_supported :
    (entries : List (List ℕ)) (tok : List ℕ) → is_supported entries tok ≡ false → ¬ Memᴰ tok entries
not_supported entries tok other m =
    let here = Mem-is_supported entries tok m in absurd (ground (arith, here, other))

pub supported_not :
    (entries : List (List ℕ)) (tok : List ℕ) → ¬ Memᴰ tok entries → is_supported entries tok ≡ false
supported_not entries tok absent = elim (Bool-cases (is_supported entries tok)) [
  | inl here ↦ absurd (absent (is_supported-Mem entries tok here))
  | inr other ↦ other
]
