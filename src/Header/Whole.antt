-- ===== src/Header/Whole.antt =====
-- A whole masked header, in any of its three length forms, up to the last byte of its key.
use libwebsock.Prelude.{
  ℕ, ◌+◌, ◌*◌, ◌/◌, ◌%◌, ◌^◌, ◌≤◌, ◌<◌, ◌≡◌, ◌≢◌, inl, inr, refl, ◌∙◌, ap, true, false, List, [],
  ◌∷◌, ◌++◌, arith, append_assoc, bit_and, length, length-append, ok, leb, if◌then◌else◌, eq_below,
  all_below, Bool-cases, leb→le,
}
use mathlib.Core.Path.{subst}
use libwebsock.Memory.{Allocator}
use libwebsock.Types.{Frame, sw_start, sw_loaded_mask}
use libwebsock.Wire.{length_field, big_endian}
use libwebsock.Header.Feed.{
  holding, feed, full_len, feed-first, feed-second, feed-length16_high, feed-length16_low,
  feed-length64_more, feed-length64_last, feed-key,
}

-- Bytes that leave the header incomplete, one after the other.
abbrev pub Feeds : Allocator → Frame → List ℕ → Frame → Type 0
Feeds mem f [] f' = f ≡ f'
Feeds mem f (b ∷ bs) f' =
    (g : Frame) × (f.state ≢ sw_loaded_mask) × (feed mem f b ≡ ok (g, false)) × Feeds mem g bs f'

pub seven_bits : (b : ℕ) → b < 256 → bit_and b 0x7f ≡ b % 128
unfolding all_below
seven_bits = eq_below 256 (λ b. bit_and b 0x7f) (λ b. b % 128) refl

length_bits : (n : ℕ) → n ≤ 127 → bit_and (128 + n) 0x7f ≡ n
length_bits n h = omega (arith, seven_bits (128 + n) (omega arith))

-- The second byte, for a payload of `n` bytes.
abbrev pub second : ℕ → ℕ
second n = if leb n 125 then 128 + n else if leb n 0xffff then 254 else 255

module _ (mem : Allocator) (f : Frame) (a k0 k1 k2 x : ℕ) (free : List ℕ)
    (start : f.state ≡ sw_start) where
  Feeds-key :
      (pre : List ℕ) (b n x0 x1 x2 : ℕ)
      → Feeds mem
          (full_len (holding f pre (x0 ∷ x1 ∷ x2 ∷ x ∷ free)) a b (length pre) n)
          (k0 ∷ k1 ∷ k2 ∷ [])
          (full_len (holding f (pre ++ k0 ∷ k1 ∷ k2 ∷ []) (x ∷ free)) a b (length pre) n)
  Feeds-key pre b n x0 x1 x2 = (
    _,
    (λ e. cc),
    feed-key mem f pre (x1 ∷ x2 ∷ x ∷ free) x0 a b (length pre) n k0 (omega arith),
    (
      _,
      (λ e. cc),
      feed-key mem f (pre ++ k0 ∷ []) (x2 ∷ x ∷ free) x1 a b (length pre) n k1
          (omega (arith, length-append pre (k0 ∷ []))),
      (
        _,
        (λ e. cc),
        feed-key mem f ((pre ++ k0 ∷ []) ++ k1 ∷ []) (x ∷ free) x2 a b (length pre) n k2
            (omega (arith, length-append pre (k0 ∷ []), length-append (pre ++ k0 ∷ []) (k1 ∷ []))),
        ap (λ g. full_len (holding f g (x ∷ free)) a b (length pre) n)
            (append_assoc (pre ++ k0 ∷ []) (k1 ∷ []) (k2 ∷ [])
              ∙ append_assoc pre (k0 ∷ []) (k1 ∷ k2 ∷ [])),
      ),
    ),
  )

  -- The frame when all but the last byte of the key is there.
  abbrev pub key_pending : List ℕ → ℕ → ℕ → Frame
  key_pending pre b n =
      full_len (holding f (pre ++ k0 ∷ k1 ∷ k2 ∷ []) (x ∷ free)) a b (length pre) n

  not_loaded : f.state ≢ sw_loaded_mask
  not_loaded e = cc

  Feeds-short :
      (n : ℕ) (z : List ℕ)
      → n ≤ 125
      → length z ≡ 5
      → Feeds mem
          (holding f [] (z ++ x ∷ free))
          (a ∷ (128 + n) ∷ k0 ∷ k1 ∷ k2 ∷ [])
          (key_pending (a ∷ (128 + n) ∷ []) (128 + n) n)
  Feeds-short n (y0 ∷ y1 ∷ x0 ∷ x1 ∷ x2 ∷ []) small e = (
    _,
    not_loaded,
    feed-first mem f (y1 ∷ x0 ∷ x1 ∷ x2 ∷ x ∷ free) y0 a start,
    (
      _,
      not_loaded,
      (feed-second mem f (x0 ∷ x1 ∷ x2 ∷ x ∷ free) y1 a (128 + n) start).0
            (omega (arith, length_bits n (omega arith)))
          ∙ ap
              (λ m. ok (
                full_len (holding f (a ∷ (128 + n) ∷ []) (x0 ∷ x1 ∷ x2 ∷ x ∷ free)) a (128 + n) 2 m,
                false,
              ))
              (length_bits n (omega arith)),
      Feeds-key (a ∷ (128 + n) ∷ []) (128 + n) n x0 x1 x2,
    ),
  )
  Feeds-short n z small e = absurd (omega arith)

  Feeds-medium :
      (c d : ℕ) (z : List ℕ)
      → length z ≡ 7
      → Feeds mem
          (holding f [] (z ++ x ∷ free))
          (a ∷ 254 ∷ c ∷ d ∷ k0 ∷ k1 ∷ k2 ∷ [])
          (key_pending (a ∷ 254 ∷ c ∷ d ∷ []) 254 (c * 256 + d))
  Feeds-medium c d (y0 ∷ y1 ∷ y2 ∷ y3 ∷ x0 ∷ x1 ∷ x2 ∷ []) e = (
    _,
    not_loaded,
    feed-first mem f (y1 ∷ y2 ∷ y3 ∷ x0 ∷ x1 ∷ x2 ∷ x ∷ free) y0 a start,
    (
      _,
      not_loaded,
      (feed-second mem f (y2 ∷ y3 ∷ x0 ∷ x1 ∷ x2 ∷ x ∷ free) y1 a 254 start).1 (inl refl),
      (
        _,
        (λ e. cc),
        feed-length16_high mem f (y3 ∷ x0 ∷ x1 ∷ x2 ∷ x ∷ free) y2 a 254 c refl,
        (
          _,
          (λ e. cc),
          feed-length16_low mem f (x0 ∷ x1 ∷ x2 ∷ x ∷ free) y3 a 254 c d refl,
          Feeds-key (a ∷ 254 ∷ c ∷ d ∷ []) 254 (c * 256 + d) x0 x1 x2,
        ),
      ),
    ),
  )
  Feeds-medium c d z e = absurd (omega arith)

  Feeds-long :
      (z1 z2 z3 z4 n1 n2 n3 n4 : ℕ) (z : List ℕ)
      → length z ≡ 13
      → Feeds mem
          (holding f [] (z ++ x ∷ free))
          (a ∷ 255 ∷ z1 ∷ z2 ∷ z3 ∷ z4 ∷ n1 ∷ n2 ∷ n3 ∷ n4 ∷ k0 ∷ k1 ∷ k2 ∷ [])
          (key_pending
            (a ∷ 255 ∷ z1 ∷ z2 ∷ z3 ∷ z4 ∷ n1 ∷ n2 ∷ n3 ∷ n4 ∷ [])
            255
            (((n1 * 256 + n2) * 256 + n3) * 256 + n4))
  Feeds-long z1 z2 z3 z4 n1 n2 n3 n4
        (y0 ∷ y1 ∷ y2 ∷ y3 ∷ y4 ∷ y5 ∷ y6 ∷ y7 ∷ y8 ∷ y9 ∷ x0 ∷ x1 ∷ x2 ∷ []) e =
      let key : List ℕ = x0 ∷ x1 ∷ x2 ∷ x ∷ free in
      (
        _,
        not_loaded,
        feed-first mem f (y1 ∷ y2 ∷ y3 ∷ y4 ∷ y5 ∷ y6 ∷ y7 ∷ y8 ∷ y9 ∷ key) y0 a start,
        (
          _,
          not_loaded,
          (feed-second mem f (y2 ∷ y3 ∷ y4 ∷ y5 ∷ y6 ∷ y7 ∷ y8 ∷ y9 ∷ key) y1 a 255 start).1
              (inr refl),
          (
            _,
            (λ e. cc),
            feed-length64_more mem f (y3 ∷ y4 ∷ y5 ∷ y6 ∷ y7 ∷ y8 ∷ y9 ∷ key) [] y2 a 255 z1 refl
                (omega arith),
            (
              _,
              (λ e. cc),
              feed-length64_more mem f (y4 ∷ y5 ∷ y6 ∷ y7 ∷ y8 ∷ y9 ∷ key) (z1 ∷ []) y3 a 255 z2
                  refl (omega arith),
              (
                _,
                (λ e. cc),
                feed-length64_more mem f (y5 ∷ y6 ∷ y7 ∷ y8 ∷ y9 ∷ key) (z1 ∷ z2 ∷ []) y4 a 255 z3
                    refl (omega arith),
                (
                  _,
                  (λ e. cc),
                  feed-length64_more mem f (y6 ∷ y7 ∷ y8 ∷ y9 ∷ key) (z1 ∷ z2 ∷ z3 ∷ []) y5 a 255 z4
                      refl (omega arith),
                  (
                    _,
                    (λ e. cc),
                    feed-length64_more mem f (y7 ∷ y8 ∷ y9 ∷ key) (z1 ∷ z2 ∷ z3 ∷ z4 ∷ []) y6 a 255
                        n1 refl (omega arith),
                    (
                      _,
                      (λ e. cc),
                      feed-length64_more mem f (y8 ∷ y9 ∷ key) (z1 ∷ z2 ∷ z3 ∷ z4 ∷ n1 ∷ []) y7 a
                          255 n2 refl (omega arith),
                      (
                        _,
                        (λ e. cc),
                        feed-length64_more mem f (y9 ∷ key) (z1 ∷ z2 ∷ z3 ∷ z4 ∷ n1 ∷ n2 ∷ []) y8 a
                            255 n3 refl (omega arith),
                        (
                          _,
                          (λ e. cc),
                          feed-length64_last mem f key y9 a 255 z1 z2 z3 z4 n1 n2 n3 n4 refl,
                          Feeds-key (a ∷ 255 ∷ z1 ∷ z2 ∷ z3 ∷ z4 ∷ n1 ∷ n2 ∷ n3 ∷ n4 ∷ []) 255
                              (((n1 * 256 + n2) * 256 + n3) * 256 + n4) x0 x1 x2,
                        ),
                      ),
                    ),
                  ),
                ),
              ),
            ),
          ),
        ),
      )
  Feeds-long z1 z2 z3 z4 n1 n2 n3 n4 z e = absurd (omega arith)

  -- From a frame that waits for its first byte, after all of a masked header but the last byte of
  -- its key, for a length below 2^32, `payload_len` is the length that the peer encoded, in each of
  -- its three forms, and the key is expected behind the length.
  pub header_fed :
      (n : ℕ) (z : List ℕ)
      → n < 2 ^ 32
      → length z ≡ length (length_field 128 n) + 4
      → Feeds mem
          (holding f [] (z ++ x ∷ free))
          (a ∷ (length_field 128 n ++ k0 ∷ k1 ∷ k2 ∷ []))
          (key_pending (a ∷ length_field 128 n) (second n) n)
  unfolding length_field big_endian
  header_fed n z small len = elim (Bool-cases (leb n 125)) [
    | inl short ↦ rw short (Feeds-short n z (leb→le n 125 short) (len' short))
    | inr long ↦ elim (Bool-cases (leb n 0xffff)) [
      | inl medium ↦
          rw (long, medium)
            (subst
              (λ m.
                Feeds mem (holding f [] (z ++ x ∷ free))
                  (a ∷ 254 ∷ (n / 256 % 256) ∷ (n % 256) ∷ k0 ∷ k1 ∷ k2 ∷ [])
                  (key_pending (a ∷ 254 ∷ (n / 256 % 256) ∷ (n % 256) ∷ []) 254 m))
              (sixteen (leb→le n 0xffff medium))
              (Feeds-medium (n / 256 % 256) (n % 256) z (ground arith)))
      | inr huge ↦
          rw (long, huge)
            (subst
              (λ m.
                Feeds mem (holding f [] (z ++ x ∷ free))
                  (a ∷ 255 ∷ big_endian 8 n ++ k0 ∷ k1 ∷ k2 ∷ [])
                  (key_pending (a ∷ 255 ∷ big_endian 8 n) 255 m))
              thirty_two (Feeds-long _ _ _ _ _ _ _ _ z (ground arith)))
    ]
  ]
    where
      len' : leb n 125 ≡ true → length z ≡ 5
      len' e = ground arith

      sixteen : n ≤ 0xffff → n / 256 % 256 * 256 + n % 256 ≡ n
      sixteen h = omega arith

      thirty_two :
          ((n / 256 / 256 / 256 % 256 * 256 + n / 256 / 256 % 256) * 256 + n / 256 % 256) * 256
            + n % 256
          ≡ n
      thirty_two = omega arith
