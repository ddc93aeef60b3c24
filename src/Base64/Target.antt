-- ===== src/Base64/Target.antt =====
-- The guard of `base64_encode` against the characters that it writes.
use libwebsock.Prelude.{
  ℕ, ◌+◌, ◌-◌, ◌*◌, ◌/◌, ◌%◌, ◌^◌, ◌≤◌, ◌<◌, ◌≡◌, refl, ◌⊎◌, inl, inr, List, [], ◌∷◌, ◌++◌, arith,
  length, length-append, drop, ok, pos, ltb, Bool-cases,
}
use libwebsock.Memory.Blocks.{write_seam}
use libwebsock.Base64.{encode_triple, encode_source, base64_encode}

pub length-encode_source : (bs : List ℕ) → length (encode_source bs) ≡ (length bs + 2) / 3 * 4
unfolding encode_source encode_triple
length-encode_source [] = omega arith
length-encode_source (a ∷ []) = omega arith
length-encode_source (a ∷ b ∷ []) = omega arith
length-encode_source (a ∷ b ∷ c ∷ bs) = omega (arith, length-encode_source bs)

-- On a target of at least one byte, with the target's own length, `base64_encode` writes nothing
-- outside it: it returns 0 and leaves the target as it was, exactly where the characters and a NUL
-- have no room, and otherwise returns 1 with the characters and a NUL at the target's start.
pub base64_encode-fits :
    (source target : List ℕ)
    → 1 ≤ length target
    → length target < 2 ^ 64
    → ((length target < length (encode_source source) + 1)
        × (base64_encode source target (length target) ≡ ok (target, pos 0)))
      ⊎ ((length (encode_source source) + 1 ≤ length target)
          × (base64_encode source target (length target)
              ≡ ok (
                (encode_source source ++ 0 ∷ [])
                    ++ drop (length (encode_source source ++ 0 ∷ [])) target,
                pos 1,
              )))
unfolding base64_encode
base64_encode-fits source target some_room small =
    let size = length-encode_source source in
    let room : (length target + 2 ^ 64 - 1) % 2 ^ 64 ≡ length target - 1 = omega arith in
    let all = length-append {0} (encode_source source) (0 ∷ []) in
    elim (Bool-cases (ltb (length target - 1) ((length source + 2) / 3 * 4))) [
      | inl over ↦ inl (ground (arith, size), rw (room, over) refl)
      | inr fits ↦ inr (
        ground (arith, size),
        rw
            (
              room,
              fits,
              write_seam 0 [] target (encode_source source ++ 0 ∷ []) refl
                  (ground (arith, size, all)),
            )
            refl,
      )
    ]
