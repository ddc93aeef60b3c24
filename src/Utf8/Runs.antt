-- ===== src/Utf8/Runs.antt =====
-- The automaton of `Steps` accepts exactly the encodings of lists of scalar values.
use libwebsock.Prelude.{
  ℕ, zero, suc, ◌+◌, ◌-◌, ◌*◌, ◌/◌, ◌%◌, ◌≤◌, ◌<◌, ◌≡◌, refl, ◌⊎◌, inl, inr, true, false, List, [],
  ◌∷◌, ◌++◌, arith, All, length, ap, ◌∙◌, leb, Bool-cases, ◌≢◌, ◌↔◌, ◌&&◌, ◌==◌, if◌then◌else◌,
}
use native.Mathlib.Decide.{ℕ_discrete}
use libwebsock.Utf8.Grammar.{Scalar, encode, encode_all}
use libwebsock.Utf8.Steps.{first, next, run, low, high, after, next-mid, next_first}

run-mid :
    (s b : ℕ) (bs : List ℕ) → 1 < s → low s ≤ b → b ≤ high s → run s (b ∷ bs) ≡ run (after s) bs
unfolding run
run-mid s b bs hs hl hh = rw (next-mid s b hs hl hh)

run-first : (b s : ℕ) (bs : List ℕ) → first b ≡ s → run 0 (b ∷ bs) ≡ run s bs
unfolding run
run-first b s bs e = rw (next_first b, e)

encode_one : (c : ℕ) (rest : List ℕ) → c < 0x80 → run 0 (c ∷ rest) ≡ run 0 rest
encode_one c rest h = run-first c 0 rest (unfold first in ground arith)

encode_two :
    (x y : ℕ) (rest : List ℕ)
    → 2 ≤ x
    → x < 32
    → y < 64
    → run 0 ((0xc0 + x) ∷ (0x80 + y) ∷ rest) ≡ run 0 rest
encode_two x y rest h k l =
    run-first (0xc0 + x) 2 _ (unfold first in ground arith)
    ∙ run-mid 2 (0x80 + y) rest (omega arith) (omega arith) (omega arith)

encode_three :
    (x y z : ℕ) (rest : List ℕ)
    → x < 16
    → y < 64
    → z < 64
    → (x ≡ 0 → 32 ≤ y)
    → (x ≡ 13 → y < 32)
    → run 0 ((0xe0 + x) ∷ (0x80 + y) ∷ (0x80 + z) ∷ rest) ≡ run 0 rest
encode_three x y z rest h k l p q =
    let s : ℕ = if x == 0 then 4 else if x == 13 then 5 else 3 in
    run-first (0xe0 + x) s _ (unfold first in ground arith)
    ∙ run-mid s (0x80 + y) _ (ground arith) (ground arith) (ground arith)
    ∙ go
  where
    go :
        run (after (if x == 0 then 4 else if x == 13 then 5 else 3)) ((0x80 + z) ∷ rest)
        ≡ run 0 rest
    go = ground (arith, run-mid 2 (0x80 + z) rest)

encode_four :
    (x y z w : ℕ) (rest : List ℕ)
    → x < 5
    → y < 64
    → z < 64
    → w < 64
    → (x ≡ 0 → 16 ≤ y)
    → (x ≡ 4 → y < 16)
    → run 0 ((0xf0 + x) ∷ (0x80 + y) ∷ (0x80 + z) ∷ (0x80 + w) ∷ rest) ≡ run 0 rest
encode_four x y z w rest h k l m p q =
    let s : ℕ = if x == 0 then 6 else if x == 4 then 8 else 7 in
    run-first (0xf0 + x) s _ (unfold first in ground arith)
    ∙ run-mid s (0x80 + y) _ (ground arith) (ground arith) (ground arith)
    ∙ go
  where
    go :
        run (after (if x == 0 then 6 else if x == 4 then 8 else 7)) ((0x80 + z) ∷ (0x80 + w) ∷ rest)
        ≡ run 0 rest
    go = ground (arith, run-mid 3 (0x80 + z) ((0x80 + w) ∷ rest), run-mid 2 (0x80 + w) rest)

run-encode : (c : ℕ) (rest : List ℕ) → Scalar c → run 0 (encode c ++ rest) ≡ run 0 rest
unfolding encode
run-encode c rest h = ground (
  arith,
  encode_one c rest,
  encode_two (c / 64) (c % 64) rest,
  encode_three (c / 4096) (c / 64 % 64) (c % 64) rest,
  encode_four (c / 262144) (c / 4096 % 64) (c / 64 % 64) (c % 64) rest,
)

pub run-encode_all : (cs : List ℕ) → All Scalar cs → run 0 (encode_all cs) ≡ true
unfolding run encode_all
run-encode_all [] h = refl
run-encode_all (c ∷ cs) h = run-encode c (encode_all cs) h.0 ∙ run-encode_all cs h.1

-- The state 1 is never left.
run-reject : (bs : List ℕ) → run 1 bs ≡ false
unfolding run next
run-reject [] = refl
run-reject (b ∷ bs) = run-reject bs

-- What a list accepted from a state in the middle of a character begins with.
record Continues (s : ℕ) (bs : List ℕ) : Type 0 where
  head : ℕ
  tail : List ℕ
  split : bs ≡ head ∷ tail
  in_low : low s ≤ head
  in_high : head ≤ high s
  accepted : run (after s) tail ≡ true

continues : (s : ℕ) (bs : List ℕ) → 1 < s → run s bs ≡ true → Continues s bs
unfolding run next
continues s [] h e = absurd (ground arith)
continues s (b ∷ bs) h e = elim (Bool-cases (leb (low s) b && leb b (high s))) [
  | inl p ↦ record {
    head = b;
    tail = bs;
    split = refl;
    in_low = ground arith;
    in_high = ground arith;
    accepted = ground arith;
  }
  | inr p ↦ absurd (ground (arith, run-reject bs))
]

-- An accepted text begins with the encoding of a scalar value, and goes on accepted.
record Begins (bs : List ℕ) : Type 0 where
  char : ℕ
  tail : List ℕ
  scalar : Scalar char
  split : encode char ++ tail ≡ bs
  accepted : run 0 tail ≡ true
  shorter : length tail < length bs

Begins-two : (b : ℕ) (bs : List ℕ) → 0xc2 ≤ b → b < 0xe0 → Continues 2 bs → Begins (b ∷ bs)
unfolding encode
Begins-two b bs h k c1 = record {
  char = (b - 0xc0) * 64 + (c1.head - 0x80);
  tail = c1.tail;
  scalar = inl (omega arith);
  split = ground arith;
  accepted = ground arith;
  shorter = ground arith;
}

Begins-three :
    (b s : ℕ) (bs : List ℕ)
    → 0xe0 ≤ b
    → b < 0xf0
    → s ≡ (if b == 0xe0 then 4 else if b == 0xed then 5 else 3)
    → (c1 : Continues s bs) → Continues 2 c1.tail
    → Begins (b ∷ bs)
unfolding encode
Begins-three b s bs h k e c1 c2 = record {
  char = (b - 0xe0) * 4096 + (c1.head - 0x80) * 64 + (c2.head - 0x80);
  tail = c2.tail;
  scalar = ground arith;
  split = ground arith;
  accepted = ground arith;
  shorter = ground arith;
}

Begins-four :
    (b s : ℕ) (bs : List ℕ)
    → 0xf0 ≤ b
    → b < 0xf5
    → s ≡ (if b == 0xf0 then 6 else if b == 0xf4 then 8 else 7)
    → (c1 : Continues s bs) (c2 : Continues 3 c1.tail) → Continues 2 c2.tail
    → Begins (b ∷ bs)
unfolding encode
Begins-four b s bs h k e c1 c2 c3 = record {
  char = (b - 0xf0) * 262144 + (c1.head - 0x80) * 4096 + (c2.head - 0x80) * 64 + (c3.head - 0x80);
  tail = c3.tail;
  scalar = ground arith;
  split = ground arith;
  accepted = ground arith;
  shorter = ground arith;
}

-- The class of a first byte, by its successor state.
first_two : (b : ℕ) → first b ≡ 2 → (0xc2 ≤ b) × (b < 0xe0)
unfolding first
first_two b e = ground arith

first_three :
    (b : ℕ)
    → (first b ≡ 3) ⊎ (first b ≡ 4) ⊎ (first b ≡ 5)
    → (0xe0 ≤ b) × (b < 0xf0) × (first b ≡ (if b == 0xe0 then 4 else if b == 0xed then 5 else 3))
unfolding first
first_three b e = ground arith

first_four :
    (b : ℕ)
    → (first b ≡ 6) ⊎ (first b ≡ 7) ⊎ (first b ≡ 8)
    → (0xf0 ≤ b) × (b < 0xf5) × (first b ≡ (if b == 0xf0 then 6 else if b == 0xf4 then 8 else 7))
unfolding first
first_four b e = ground arith

first_zero : (b : ℕ) → first b ≡ 0 → b < 0x80
unfolding first
first_zero b e = ground arith

first-range :
    (b : ℕ)
    → first b ≢ 1
    → first b ≢ 0
    → first b ≢ 2
    → ((first b ≡ 3) ⊎ (first b ≡ 4) ⊎ (first b ≡ 5))
      ⊎ ((first b ≡ 6) ⊎ (first b ≡ 7) ⊎ (first b ≡ 8))
unfolding first
first-range b p q r = ground arith

Begins-ascii : (b : ℕ) (bs : List ℕ) → b < 0x80 → run 0 bs ≡ true → Begins (b ∷ bs)
unfolding encode
Begins-ascii b bs h e = record {
  char = b;
  tail = bs;
  scalar = inl (omega arith);
  split = ground arith;
  accepted = e;
  shorter = omega arith;
}

begins : (b : ℕ) (bs : List ℕ) → run (first b) bs ≡ true → Begins (b ∷ bs)
begins b bs e = elim (ℕ_discrete (first b) 1) [
  | yes one ↦ absurd (cc (run-reject bs, ap (λ s. run s bs) one))
  | no n1 ↦ elim (ℕ_discrete (first b) 0) [
    | yes at_zero ↦ Begins-ascii b bs (first_zero b at_zero) (rw (← at_zero) e)
    | no n0 ↦ elim (ℕ_discrete (first b) 2) [
      | yes two ↦
          Begins-two b bs (first_two b two).0 (first_two b two).1
            (continues 2 bs (omega arith) (rw (← two) e))
      | no n2 ↦ elim (first-range b n1 n0 n2) [
        | inl three ↦
            let (l, h, s) = first_three b three in
            let c1 = continues (first b) bs (omega arith) e in
            Begins-three b (first b) bs l h s c1
              (continues 2 c1.tail (omega arith) (ground (arith, c1.accepted)))
        | inr four ↦
            let (l, h, s) = first_four b four in
            let c1 = continues (first b) bs (omega arith) e in
            let c2 = continues 3 c1.tail (omega arith) (ground (arith, c1.accepted)) in
            Begins-four b (first b) bs l h s c1 c2 (continues 2 c2.tail (omega arith) c2.accepted)
      ]
    ]
  ]
]

run-decoded :
    (n : ℕ) (bs : List ℕ)
    → length bs ≤ n
    → run 0 bs ≡ true
    → (cs : List ℕ) × All Scalar cs × (encode_all cs ≡ bs)
unfolding encode_all run
run-decoded n [] h e = ([], tt, refl)
run-decoded zero (b ∷ bs) h e = absurd (omega arith)
run-decoded (suc n) (b ∷ bs) h e =
    let f : Begins (b ∷ bs) = begins b bs (rw (← next_first b) e) in
    let (cs, sc, enc) = run-decoded n f.tail (omega (arith, f.shorter)) f.accepted in
    (f.char ∷ cs, (f.scalar, sc), rw enc f.split)

-- Acceptance from the start is being an encoding.
pub run_iff :
    (bs : List ℕ) → (run 0 bs ≡ true) ↔ ((cs : List ℕ) × All Scalar cs × (encode_all cs ≡ bs))
run_iff bs = (run-decoded (length bs) bs (omega arith), λ w. rw (← w.2) (run-encode_all w.0 w.1))
