-- ===== src/Header/Feed.antt =====
-- The header of a frame, byte by byte: what `libwebsock_read_header` knows after each byte.
use mathlib.Core.Path.{ap₂}
use native.Mathlib.Nat.{add-zero}
use libwebsock.Prelude.{
  ◌⊎◌, ℕ, ◌+◌, ◌*◌, ◌%◌, ◌^◌, ◌<◌, ◌≡◌, refl, ◌∙◌, ap, sym, false, List, [], ◌∷◌, ◌++◌, arith,
  append_assoc, bit_and, length, length-append, le→ltb, ok, ◌>>=◌, ◌==◌, if◌then◌else◌,
}
use libwebsock.Memory.{Allocator, byte_at, write}
use libwebsock.Memory.Blocks.{write_seam, byte_at_seam}
use libwebsock.Types.{Frame, sw_start, sw_got_short_len, sw_got_full_len, sw_loaded_mask}
use libwebsock.Header.{read_header, got_two, got_short_len, got_full_len, grow, Step}

-- The frame when its block holds `got` in front of `free`.
abbrev pub holding : Frame → List ℕ → List ℕ → Frame
holding f got free = record f { rawdata = got ++ free; rawdata_idx = length got }

-- A byte is stored and the header is read as far as it goes.
abbrev pub feed : Allocator → Frame → ℕ → Step
feed mem f b =
    write f.rawdata f.rawdata_idx (b ∷ [])
    >>= (λ block. read_header mem (record f { rawdata = block; rawdata_idx = f.rawdata_idx + 1 }))

-- After the second byte, when the length goes on.
abbrev pub short_len : Frame → ℕ → ℕ → Frame
short_len f a b = record f {
  mask_offset = 2;
  fin = if bit_and a 0x80 == 0x80 then 1 else 0;
  opcode = bit_and a 0xf;
  payload_len_short = bit_and b 0x7f;
  state = sw_got_short_len;
}

-- When the length `n` is known and the key stands at `off`.
abbrev pub full_len : Frame → ℕ → ℕ → ℕ → ℕ → Frame
full_len f a b off n = record (short_len f a b) {
  mask_offset = off;
  payload_offset = off + 4;
  payload_len = n;
  state = sw_got_full_len;
}

-- When the key `k0 k1 k2 k3` is there.
abbrev pub loaded : Frame → List ℕ → List ℕ → ℕ → ℕ → ℕ → ℕ → ℕ → ℕ → ℕ → ℕ → Frame
loaded f got free a b off n k0 k1 k2 k3 = record (full_len (holding f got free) a b off n) {
  mask = k0 ∷ k1 ∷ k2 ∷ k3 ∷ [];
  state = sw_loaded_mask;
  size = (off + 4 + n) % 2 ^ 32;
}

-- The key at the end of what is held.
module _ (pre free : List ℕ) (k0 k1 k2 k3 : ℕ) where
  held_key :
      (i k : ℕ)
      → byte_at (k0 ∷ k1 ∷ k2 ∷ k3 ∷ free) i ≡ ok k
      → byte_at ((pre ++ k0 ∷ k1 ∷ k2 ∷ k3 ∷ []) ++ free) (length pre + i) ≡ ok k
  held_key i k e =
      ap (λ l. byte_at l (length pre + i)) (append_assoc pre (k0 ∷ k1 ∷ k2 ∷ k3 ∷ []) free)
      ∙ byte_at_seam (length pre + i) i pre (k0 ∷ k1 ∷ k2 ∷ k3 ∷ free) refl
      ∙ e

module _ (mem : Allocator) where
  feed-holding :
      (f : Frame) (got free : List ℕ) (x b : ℕ)
      → feed mem (holding f got (x ∷ free)) b ≡ read_header mem (holding f (got ++ b ∷ []) free)
  feed-holding f got free x b =
      rw (write_seam (length got) got (x ∷ free) (b ∷ []) refl (omega arith)) (
        ap₂ (λ r n. read_header mem (record f { rawdata = r; rawdata_idx = n }))
          (sym (append_assoc got (b ∷ []) free)) (omega (arith, length-append got (b ∷ []))))

  pub feed-first :
      (f : Frame) (free : List ℕ) (x a : ℕ)
      → f.state ≡ sw_start
      → feed mem (holding f [] (x ∷ free)) a ≡ ok (holding f (a ∷ []) free, false)
  unfolding read_header
  feed-first f free x a start = feed-holding f [] free x a ∙ ground (arith)

  pub feed-second :
      (f : Frame) (free : List ℕ) (x a b : ℕ)
      → f.state ≡ sw_start
      → (bit_and b 0x7f < 126
          → feed mem (holding f (a ∷ []) (x ∷ free)) b
            ≡ ok (full_len (holding f (a ∷ b ∷ []) free) a b 2 (bit_and b 0x7f), false))
        × ((bit_and b 0x7f ≡ 126) ⊎ (bit_and b 0x7f ≡ 127)
            → feed mem (holding f (a ∷ []) (x ∷ free)) b
              ≡ ok (short_len (holding f (a ∷ b ∷ []) free) a b, false))
  unfolding read_header got_two got_short_len got_full_len byte_at
  feed-second f free x a b start = (
    λ h. feed-holding f (a ∷ []) free x b ∙ ground (arith),
    λ h. feed-holding f (a ∷ []) free x b ∙ ground arith,
  )

  pub feed-length16_high :
      (f : Frame) (free : List ℕ) (x a b c : ℕ)
      → bit_and b 0x7f ≡ 126
      → feed mem (short_len (holding f (a ∷ b ∷ []) (x ∷ free)) a b) c
        ≡ ok (short_len (holding f (a ∷ b ∷ c ∷ []) free) a b, false)
  unfolding read_header got_short_len
  feed-length16_high f free x a b c short =
      feed-holding (short_len f a b) (a ∷ b ∷ []) free x c ∙ ground arith

  pub feed-length16_low :
      (f : Frame) (free : List ℕ) (x a b c d : ℕ)
      → bit_and b 0x7f ≡ 126
      → feed mem (short_len (holding f (a ∷ b ∷ c ∷ []) (x ∷ free)) a b) d
        ≡ ok (full_len (holding f (a ∷ b ∷ c ∷ d ∷ []) free) a b 4 (c * 256 + d), false)
  unfolding read_header got_short_len got_full_len byte_at
  feed-length16_low f free x a b c d short =
      feed-holding (short_len f a b) (a ∷ b ∷ c ∷ []) free x d ∙ ground arith

  pub feed-length64_more :
      (f : Frame) (free more : List ℕ) (x a b c : ℕ)
      → bit_and b 0x7f ≡ 127
      → length more < 7
      → feed mem (short_len (holding f (a ∷ b ∷ more) (x ∷ free)) a b) c
        ≡ ok (short_len (holding f (a ∷ b ∷ (more ++ c ∷ [])) free) a b, false)
  unfolding read_header got_short_len
  feed-length64_more f free more x a b c short less =
      feed-holding (short_len f a b) (a ∷ b ∷ more) free x c
      ∙ ground (arith, length-append more (c ∷ []))

  pub feed-length64_last :
      (f : Frame) (free : List ℕ) (x a b z1 z2 z3 z4 n1 n2 n3 n4 : ℕ)
      → bit_and b 0x7f ≡ 127
      → feed mem
          (short_len (holding f (a ∷ b ∷ z1 ∷ z2 ∷ z3 ∷ z4 ∷ n1 ∷ n2 ∷ n3 ∷ []) (x ∷ free)) a b)
          n4
        ≡ ok (
          full_len
              (holding f (a ∷ b ∷ z1 ∷ z2 ∷ z3 ∷ z4 ∷ n1 ∷ n2 ∷ n3 ∷ n4 ∷ []) free)
              a
              b
              10
              (((n1 * 256 + n2) * 256 + n3) * 256 + n4),
          false,
        )
  unfolding read_header got_short_len got_full_len byte_at
  feed-length64_last f free x a b z1 z2 z3 z4 n1 n2 n3 n4 short =
      feed-holding (short_len f a b) (a ∷ b ∷ z1 ∷ z2 ∷ z3 ∷ z4 ∷ n1 ∷ n2 ∷ n3 ∷ []) free x n4
      ∙ ground arith

  pub feed-key :
      (f : Frame) (got free : List ℕ) (x a b off n k : ℕ)
      → length got + 1 < off + 4
      → feed mem (full_len (holding f got (x ∷ free)) a b off n) k
        ≡ ok (full_len (holding f (got ++ k ∷ []) free) a b off n, false)
  unfolding read_header got_full_len
  feed-key f got free x a b off n k less =
      feed-holding (full_len f a b off n) got free x k ∙ ground (arith, length-append got (k ∷ []))

  pub feed-key_last :
      (f : Frame) (pre free : List ℕ) (x a b n k0 k1 k2 k3 : ℕ)
      → feed mem (full_len (holding f (pre ++ k0 ∷ k1 ∷ k2 ∷ []) (x ∷ free)) a b (length pre) n) k3
        ≡ grow mem (loaded f (pre ++ k0 ∷ k1 ∷ k2 ∷ k3 ∷ []) free a b (length pre) n k0 k1 k2 k3)
  unfolding read_header got_full_len
  feed-key_last f pre free x a b n k0 k1 k2 k3 =
      feed-holding (full_len f a b (length pre) n) (pre ++ k0 ∷ k1 ∷ k2 ∷ []) free x k3
      ∙ ap (λ g. got_full_len mem (holding (full_len f a b (length pre) n) g free))
          (append_assoc pre (k0 ∷ k1 ∷ k2 ∷ []) (k3 ∷ []))
      ∙ rw (
        le→ltb (length (pre ++ k0 ∷ k1 ∷ k2 ∷ k3 ∷ [])) (length pre + 4)
            (omega (arith, length-append pre (k0 ∷ k1 ∷ k2 ∷ k3 ∷ []))),
        first,
        held_key pre free k0 k1 k2 k3 1 k1 (unfold byte_at in refl),
        held_key pre free k0 k1 k2 k3 2 k2 (unfold byte_at in refl),
        held_key pre free k0 k1 k2 k3 3 k3 (unfold byte_at in refl),
      )
    where
      first : byte_at ((pre ++ k0 ∷ k1 ∷ k2 ∷ k3 ∷ []) ++ free) (length pre) ≡ ok k0
      first =
          ap (λ n. byte_at ((pre ++ k0 ∷ k1 ∷ k2 ∷ k3 ∷ []) ++ free) n)
            (sym (add-zero (length pre)))
          ∙ held_key pre free k0 k1 k2 k3 0 k0 (unfold byte_at in refl)
