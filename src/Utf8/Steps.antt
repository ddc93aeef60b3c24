-- ===== src/Utf8/Steps.antt =====
-- The rows of `utf8d` by ranges of bytes: the automaton behind `decode`.
use libwebsock.Prelude.{
  ℕ, ◌+◌, ◌*◌, ◌/◌, ◌%◌, ◌^◌, ◌<◌, ◌≤◌, ◌⊎◌, ◌≡◌, refl, Bool, true, false, ◌&&◌, List, [], ◌∷◌,
  ◌++◌, arith, ltb, leb, ◌==◌, if◌then◌else◌, get_elem?, all_below, all_below_sound, ok, fault,
  bit_and, bit_or, exited, Option, none, some, Option-cases, inl, inr, All,
}
use libwebsock.Utf8.Grammar.{IsByte}
use libwebsock.Utf8.{utf8d, decode, validate_from}

abbrev within : ℕ → ℕ → ℕ → Bool
within lo hi b = leb lo b && leb b hi

unfoldable pub first : ℕ → ℕ
first b =
    if ltb b 0x80
    then 0
    else if ltb b 0xc2
    then 1
    else if ltb b 0xe0
    then 2
    else if b == 0xe0
    then 4
    else if b == 0xed
    then 5
    else if ltb b 0xf0
    then 3
    else if b == 0xf0
    then 6
    else if ltb b 0xf4
    then 7
    else if b == 0xf4
    then 8
    else 1

-- The bytes that continue a character from a state above 1, and the state after one.
abbrev pub low : ℕ → ℕ
low s = if s == 4 then 0xa0 else if s == 6 then 0x90 else 0x80

abbrev pub high : ℕ → ℕ
high s = if s == 5 then 0x9f else if s == 8 then 0x8f else 0xbf

abbrev pub after : ℕ → ℕ
after s = if s == 2 then 0 else if ltb s 6 then 2 else 3

-- The successor of a state at a byte.
unfoldable pub next : ℕ → ℕ → ℕ
next s b =
    if s == 0
    then first b
    else if s == 1
    then 1
    else if within (low s) (high s) b
    then after s
    else 1

abbrev state_of : ℕ → ℕ → Option ℕ
state_of s b = elim (decode s 0 b) [ ok d ↦ some d.state | fault ↦ none | exited ↦ none ]

abbrev is_some_of : Option ℕ → ℕ → Bool
is_some_of none n = false
is_some_of (some m) n = m == n

table : all_below 9 (λ s. all_below 256 (λ b. is_some_of (state_of s b) (next s b))) ≡ true
unfolding all_below decode utf8d next first
table = refl

row : (s b : ℕ) → s < 9 → b < 256 → is_some_of (state_of s b) (next s b) ≡ true
row s b hs hb =
    all_below_sound 256 (λ b. is_some_of (state_of s b) (next s b)) b
      (all_below_sound 9 (λ s. all_below 256 (λ b. is_some_of (state_of s b) (next s b))) s table
        hs)
      hb

-- At each of the nine states and each byte the table is read inside its bounds, and the
-- successor is that of `next`.
pub decode-next :
    (s c b : ℕ)
    → s < 9
    → b < 256
    → (cp : ℕ) × (decode s c b ≡ ok (record { state = next s b; codep = cp }))
unfolding decode
decode-next s c b hs hb = elim (Option-cases (get_elem? utf8d b)) [
  | inl e ↦ absurd (ground (arith, row s b hs hb))
  | inr (t, e) ↦ elim (Option-cases (get_elem? utf8d (256 + s * 16 + t))) [
    | inl e' ↦ absurd (ground (arith, row s b hs hb))
    | inr (n, e') ↦ (
      if s == 0 then bit_and (0xff / 2 ^ t) b else bit_or (bit_and b 0x3f) (c * 2 ^ 6 % 2 ^ 32),
      ground (arith, row s b hs hb),
    )
  ]
]

pub next-lt : (s b : ℕ) → next s b < 9
unfolding next first
next-lt s b = ground arith

pub next-mid : (s b : ℕ) → 1 < s → low s ≤ b → b ≤ high s → next s b ≡ after s
unfolding next
next-mid s b hs hl hh = ground arith

pub next_out : (s b : ℕ) → 1 < s → (b < low s) ⊎ (high s < b) → next s b ≡ 1
unfolding next
next_out s b hs h = ground arith

pub next_first : (b : ℕ) → next 0 b ≡ first b
unfolding next
next_first b = refl

-- The automaton accepts a text from a state.
unfoldable pub run : ℕ → List ℕ → Bool
run s [] = s == 0
run s (b ∷ bs) = run (next s b) bs

pub validate_from-run :
    (s c : ℕ) (bs rest : List ℕ)
    → s < 9
    → All IsByte bs
    → validate_from s c (bs ++ 0 ∷ rest) ≡ ok (run s bs)
unfolding validate_from run
validate_from-run s c [] rest hs all = refl
validate_from-run s c (b ∷ bs) rest hs all =
    let (cp, e) = decode-next s c b hs all.0.1 in
    ground (arith, e, validate_from-run (next s b) cp bs rest (next-lt s b) all.1)
