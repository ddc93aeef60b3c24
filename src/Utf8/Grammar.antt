-- ===== src/Utf8/Grammar.antt =====
-- UTF-8 as RFC 3629 defines it: the encoding of each Unicode scalar value.
use libwebsock.Prelude.{ℕ, ◌+◌, ◌/◌, ◌%◌, ◌≤◌, ◌<◌, ◌⊎◌, List, [], ◌∷◌, ◌++◌, ltb, if◌then◌else◌}

-- A code point that is no surrogate.
abbrev pub Scalar : ℕ → Type 0
Scalar c = (c < 0xd800) ⊎ ((0xe000 ≤ c) × (c < 0x110000))

-- A byte of a C string: not NUL.
abbrev pub IsByte : ℕ → Type 0
IsByte b = (0 < b) × (b < 256)

unfoldable pub encode : ℕ → List ℕ
encode c =
    if ltb c 0x80
    then c ∷ []
    else if ltb c 0x800
    then (0xc0 + c / 64) ∷ (0x80 + c % 64) ∷ []
    else if ltb c 0x10000
    then (0xe0 + c / 4096) ∷ (0x80 + c / 64 % 64) ∷ (0x80 + c % 64) ∷ []
    else (0xf0 + c / 262144) ∷ (0x80 + c / 4096 % 64) ∷ (0x80 + c / 64 % 64) ∷ (0x80 + c % 64) ∷ []

unfoldable pub encode_all : List ℕ → List ℕ
unfolding encode
encode_all [] = []
encode_all (c ∷ cs) = encode c ++ encode_all cs
