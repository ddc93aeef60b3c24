-- ===== src/CStrings.antt =====
-- The functions of the C library on strings that src/websock.c calls: `strstr`, `strncpy`,
-- `strtok`, `strcmp`, `sprintf` with `%08x` and `sscanf` with `%02hhx`. A string is the list of its
-- bytes up to its NUL, an array that of all its bytes.
use libwebsock.Prelude.{
  ℕ, zero, suc, ◌+◌, ◌-◌, ◌*◌, ◌/◌, ◌%◌, ◌^◌, Bool, true, false, ◌&&◌, ◌||◌, List, [], ◌∷◌, ltb,
  ◌==◌, if◌then◌else◌, Outcome, ok, fault, ◌>>=◌,
}

abbrev pub starts_with : List ℕ → List ℕ → Bool
starts_with [] bs = true
starts_with (x ∷ xs) [] = false
starts_with (x ∷ xs) (b ∷ bs) = x == b && starts_with xs bs

-- `strstr(bs, needle) != NULL`
unfoldable pub strstr : List ℕ → List ℕ → Bool
strstr needle [] = starts_with needle []
strstr needle (b ∷ bs) = starts_with needle (b ∷ bs) || strstr needle bs

-- The comparison at one place of an array, which ends at the first difference: a NUL is one.
unfoldable pub matches : List ℕ → List ℕ → Outcome Bool
matches [] object = ok true
matches (x ∷ xs) [] = fault
matches (x ∷ xs) (b ∷ bs) = let rest = matches xs bs in if x == b then rest else ok false

-- `strstr(object, needle) != NULL`, for an array: the search ends at a match or at the NUL, and is
-- a fault where it leaves the array before.
unfoldable pub search : List ℕ → List ℕ → Outcome Bool
search needle [] = fault
search needle (b ∷ bs) =
    let rest = search needle bs in
    matches needle (b ∷ bs)
    >>= (λ here. if here then ok true else if b == 0 then ok false else rest)

-- What `strncpy` with `n` copies from an array: the bytes before the NUL, at most `n`.
unfoldable pub copied_text : ℕ → List ℕ → Outcome (List ℕ)
copied_text zero object = ok []
copied_text (suc n) [] = fault
copied_text (suc n) (b ∷ bs) =
    let rest = copied_text n bs >>= (λ text. ok (b ∷ text)) in if b == 0 then ok [] else rest

-- `strcmp(xs, ys) == 0`
unfoldable pub equal : List ℕ → List ℕ → Bool
equal [] [] = true
equal [] (y ∷ ys) = false
equal (x ∷ xs) [] = false
equal (x ∷ xs) (y ∷ ys) = x == y && equal xs ys

abbrev pub onto_first : ℕ → List (List ℕ) → List (List ℕ)
onto_first b [] = (b ∷ []) ∷ []
onto_first b (t ∷ ts) = (b ∷ t) ∷ ts

-- What stands between delimiters.
unfoldable pub segments : (ℕ → Bool) → List ℕ → List (List ℕ)
segments delimits [] = [] ∷ []
segments delimits (b ∷ bs) =
    let rest = segments delimits bs in if delimits b then [] ∷ rest else onto_first b rest

unfoldable pub nonempty : List (List ℕ) → List (List ℕ)
nonempty [] = []
nonempty ([] ∷ ts) = nonempty ts
nonempty ((b ∷ bs) ∷ ts) = (b ∷ bs) ∷ nonempty ts

-- The tokens that the calls of `strtok` give in turn.
unfoldable pub tokens : (ℕ → Bool) → List ℕ → List (List ℕ)
tokens delimits bs = nonempty (segments delimits bs)

-- What stands between delimiters in an array up to its NUL, and whether there is a NUL.
unfoldable pub pieces_of : (ℕ → Bool) → List ℕ → List (List ℕ) × Bool
pieces_of delimits [] = ([] ∷ [], false)
pieces_of delimits (b ∷ bs) =
    let rest = pieces_of delimits bs in
    if b == 0
    then ([] ∷ [], true)
    else if delimits b
    then ([] ∷ rest.0, rest.1)
    else (onto_first b rest.0, rest.1)

-- A digit of `%x`.
unfoldable pub hex_digit : ℕ → ℕ
hex_digit d = if ltb d 10 then 48 + d else 87 + d

-- `%08x`
unfoldable pub hex8 : ℕ → List ℕ
hex8 w =
    hex_digit (w / 2 ^ 28 % 16)
    ∷ hex_digit (w / 2 ^ 24 % 16)
    ∷ hex_digit (w / 2 ^ 20 % 16)
    ∷ hex_digit (w / 2 ^ 16 % 16)
    ∷ hex_digit (w / 2 ^ 12 % 16)
    ∷ hex_digit (w / 2 ^ 8 % 16)
    ∷ hex_digit (w / 2 ^ 4 % 16)
    ∷ hex_digit (w % 16)
    ∷ []

-- The value of a digit that `%x` wrote.
unfoldable pub hex_value : ℕ → ℕ
hex_value c = if ltb c 58 then c - 48 else c - 87

-- `%02hhx` at each pair of digits.
unfoldable pub hex_bytes : List ℕ → List ℕ
hex_bytes (a ∷ b ∷ digits) = (hex_value a * 16 + hex_value b) ∷ hex_bytes digits
hex_bytes _ = []
