-- ===== src/Utf8.antt =====
-- src/utf.c, and `validate_utf8_sequence` of src/util.c: the table-driven UTF-8 decoder.
pub mod Grammar
mod Steps
mod Runs
pub mod Validity
mod Tests
use libwebsock.Prelude.{
  ℕ, ◌+◌, ◌*◌, ◌/◌, ◌%◌, ◌^◌, Bool, List, [], ◌∷◌, ◌++◌, bit_and, bit_or, replicate, get_elem?,
  ◌==◌, if◌then◌else◌, Outcome, ok, fault, access, ◌>>=◌,
}

abbrev pub utf8_accept : ℕ
utf8_accept = 0

-- 256 character classes, then 9 rows of 16 successor states.
unfoldable pub utf8d : List ℕ
utf8d =
    replicate 128 0
    ++ (replicate 16 1
        ++ (replicate 16 9
            ++ (replicate 32 7
                ++ (8 ∷ 8 ∷ replicate 30 2
                    ++ (0xa ∷ replicate 12 3
                        ++ (4 ∷ 3 ∷ 3 ∷ []
                            ++ (0xb ∷ 6 ∷ 6 ∷ 6 ∷ 5 ∷ replicate 11 8
                                ++ (0 ∷ 1 ∷ 2 ∷ 3 ∷ 5 ∷ 8 ∷ 7 ∷ 1 ∷ 1 ∷ 1 ∷ 4 ∷ 6 ∷ 1 ∷ 1 ∷ 1 ∷ 1
                                      ∷ []
                                    ++ (replicate 17 1
                                        ++ (0 ∷ 1 ∷ 1 ∷ 1 ∷ 1 ∷ 1 ∷ 0 ∷ 1 ∷ 0 ∷ replicate 6 1
                                            ++ (1
                                                  ∷ 2
                                                  ∷ 1
                                                  ∷ 1
                                                  ∷ 1
                                                  ∷ 1
                                                  ∷ 1
                                                  ∷ 2
                                                  ∷ 1
                                                  ∷ 2
                                                  ∷ replicate 13 1
                                                ++ (2 ∷ replicate 8 1
                                                    ++ (1 ∷ 2 ∷ replicate 7 1
                                                        ++ (2 ∷ replicate 13 1
                                                            ++ (3 ∷ 1 ∷ 3 ∷ replicate 6 1
                                                            ++ (1
                                                            ∷ 3
                                                            ∷ 1
                                                            ∷ 1
                                                            ∷ 1
                                                            ∷ 1
                                                            ∷ 1
                                                            ∷ 3
                                                            ∷ 1
                                                            ∷ 3
                                                            ∷ replicate 7 1
                                                            ++ (3 ∷ replicate 14 1)))))))))))))))))

-- `decode`, which updates `*state` and `*codep`; a read outside the table is a fault.
unfoldable pub decode : ℕ → ℕ → ℕ → Outcome (record { state : ℕ; codep : ℕ })
decode state codep byte = do
  type ← access (get_elem? utf8d byte)
  next ← access (get_elem? utf8d (256 + state * 16 + type))
  ok (record {
    state = next;
    codep =
        if state == utf8_accept
        then bit_and (0xff / 2 ^ type) byte
        else bit_or (bit_and byte 0x3f) (codep * 2 ^ 6 % 2 ^ 32);
  })

-- The loop `for (; *s; ++s)` over the memory at `s`, which must hold a NUL.
unfoldable pub validate_from : ℕ → ℕ → List ℕ → Outcome Bool
unfolding decode
validate_from state codep [] = fault
validate_from state codep (b ∷ s) =
    let rest = decode state codep b >>= (λ d. validate_from d.state d.codep s) in
    if b == 0 then ok (state == utf8_accept) else rest

unfoldable pub validate_utf8_sequence : List ℕ → Outcome Bool
unfolding validate_from
validate_utf8_sequence s = validate_from 0 0 s
