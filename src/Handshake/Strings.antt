-- ===== src/Handshake/Strings.antt =====
-- The searches in the request and in the protocols that it asks for, on arrays with a NUL and
-- without one.
use libwebsock.Prelude.{
  ℕ, zero, suc, ◌<◌, ◌≡◌, ◌⊎◌, inl, inr, refl, ap, Bool, true, false, List, [], ◌∷◌, ◌++◌, arith,
  All, ok, fault, take, ◌==◌, Bool-cases,
}
use libwebsock.CStrings.{starts_with, strstr, matches, search, copied_text, segments, pieces_of}

matches-starts_with :
    (needle text rest : List ℕ)
    → All (λ b. 0 < b) needle
    → matches needle (text ++ 0 ∷ rest) ≡ ok (starts_with needle text)
unfolding matches
matches-starts_with [] text rest positive = refl
matches-starts_with (x ∷ xs) [] rest positive = ground (arith, positive.0)
matches-starts_with (x ∷ xs) (b ∷ bs) rest positive =
    ground (arith, matches-starts_with xs bs rest positive.1)

pub search-strstr :
    (x : ℕ) (xs text rest : List ℕ)
    → All (λ b. 0 < b) (x ∷ xs)
    → All (λ b. 0 < b) text
    → search (x ∷ xs) (text ++ 0 ∷ rest) ≡ ok (strstr (x ∷ xs) text)
unfolding search strstr
search-strstr x xs [] rest needle positive = rw (matches-starts_with (x ∷ xs) [] rest needle) refl
search-strstr x xs (b ∷ bs) rest needle positive =
    rw (matches-starts_with (x ∷ xs) (b ∷ bs) rest needle)
      (ground (arith, search-strstr x xs bs rest needle positive.1, positive.0))

pub copied_text-take :
    (n : ℕ) (text rest : List ℕ)
    → All (λ b. 0 < b) text
    → copied_text n (text ++ 0 ∷ rest) ≡ ok (take n text)
unfolding copied_text
copied_text-take zero text rest positive = refl
copied_text-take (suc n) [] rest positive = refl
copied_text-take (suc n) (b ∷ text) rest positive =
    ground (arith, copied_text-take n text rest positive.1, positive.0)

-- The array has the bytes of the needle somewhere.
abbrev pub Contains : List ℕ → List ℕ → Type 0
Contains needle object = (front : List ℕ) × (back : List ℕ) × (object ≡ front ++ (needle ++ back))

matches_cases :
    (needle object : List ℕ)
    → ((matches needle object ≡ ok true) × (back : List ℕ) × (object ≡ needle ++ back))
      ⊎ (matches needle object ≡ ok false)
      ⊎ (matches needle object ≡ fault)
unfolding matches
matches_cases [] object = inl (refl, object, refl)
matches_cases (x ∷ xs) [] = inr (inr refl)
matches_cases (x ∷ xs) (b ∷ bs) = elim (Bool-cases (x == b)) [
  | inl same ↦
      let e : x ≡ b = ground arith in
      elim (matches_cases xs bs) [
        | inl (all, back, cut) ↦ inl (rw (same, all) refl, back, rw (e, cut) refl)
        | inr (inl other) ↦ inr (inl (rw (same, other) refl))
        | inr (inr out) ↦ inr (inr (rw (same, out) refl))
      ]
  | inr other ↦ inr (inl (rw other refl))
]

-- A search for bytes that an array without NUL does not have leaves the array.
pub search-fault :
    (needle object : List ℕ)
    → All (λ b. 0 < b) object
    → ¬ Contains needle object
    → search needle object ≡ fault
unfolding search
search-fault needle [] positive absent = refl
search-fault needle (b ∷ bs) positive absent = elim (matches_cases needle (b ∷ bs)) [
  | inl (all, back, cut) ↦ absurd (absent ([], back, cut))
  | inr (inl other) ↦
      let here : (b == 0) ≡ false = ground (arith, positive.0) in
      rw (other, here)
        (search-fault needle bs positive.1
          (λ (front, back, cut). absent (b ∷ front, back, ap (λ l. b ∷ l) cut)))
  | inr (inr out) ↦ rw out refl
]

pub pieces_of_string :
    (delimits : ℕ → Bool) (text rest : List ℕ)
    → All (λ b. 0 < b) text
    → pieces_of delimits (text ++ 0 ∷ rest) ≡ (segments delimits text, true)
unfolding pieces_of segments
pieces_of_string delimits [] rest positive = refl
pieces_of_string delimits (b ∷ text) rest positive =
    let here : (b == 0) ≡ false = ground (arith, positive.0) in
    rw (here, pieces_of_string delimits text rest positive.1)
      (elim (Bool-cases (delimits b)) [ inl apart ↦ rw apart refl | inr inside ↦ rw inside refl ])

pub pieces_of_array :
    (delimits : ℕ → Bool) (text : List ℕ)
    → All (λ b. 0 < b) text
    → pieces_of delimits text ≡ (segments delimits text, false)
unfolding pieces_of segments
pieces_of_array delimits [] positive = refl
pieces_of_array delimits (b ∷ text) positive =
    let here : (b == 0) ≡ false = ground (arith, positive.0) in
    rw (here, pieces_of_array delimits text positive.1)
      (elim (Bool-cases (delimits b)) [ inl apart ↦ rw apart refl | inr inside ↦ rw inside refl ])
