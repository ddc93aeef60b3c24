-- ===== src/Header.antt =====
-- src/websock.c, `libwebsock_read_header`: the frame header, resumed at each byte.
pub mod Grow
pub mod Feed
pub mod Whole
pub mod Loaded
use libwebsock.Prelude.{
  ℕ, ◌+◌, ◌-◌, ◌*◌, ◌/◌, ◌%◌, ◌^◌, Bool, true, false, List, [], ◌∷◌, bit_and, bit_or, Outcome, ok,
  ltb, ◌==◌, if◌then◌else◌, ◌>>=◌, ◌>>◌,
}
use libwebsock.Memory.{Allocator, byte_at, lws_realloc}
use libwebsock.Types.{
  Frame, sw_start, sw_got_two, sw_got_short_len, sw_got_full_len, sw_loaded_mask, mask_length,
}

-- `>>` on an `int` with a given 32-bit pattern, which copies the sign.
abbrev pub shift_int : ℕ → ℕ → ℕ
shift_int x k = if ltb x (2 ^ 31) then x / 2 ^ k else x / 2 ^ k + (2 ^ 32 - 2 ^ (32 - k))

-- One line `new_size |= new_size >> k`.
unfoldable pub smear : ℕ → ℕ → ℕ
smear k x = bit_or x (shift_int x k)

-- The pattern of `new_size` at the end. An overflow of the `int` wraps, as it does with gcc.
unfoldable pub round_up : ℕ → ℕ
round_up size =
    (smear 16 (smear 8 (smear 4 (smear 2 (smear 1 ((size + 2 ^ 32 - 1) % 2 ^ 32))))) + 1) % 2 ^ 32

-- An `int` as the `size_t` argument of `lws_realloc`.
abbrev pub size_of_int : ℕ → ℕ
size_of_int w = if ltb w (2 ^ 31) then w else w + (2 ^ 64 - 2 ^ 32)

abbrev pub Step : Type 0
Step = Outcome (Frame × Bool)

module _ (mem : Allocator) where
  -- The last part of `case sw_got_full_len`.
  unfoldable pub grow : Frame → Step
  grow f =
      if ltb f.rawdata_sz f.size
      then (do
        block ← lws_realloc mem f.rawdata (size_of_int (round_up f.size))
        ok (record f { rawdata = block; rawdata_sz = round_up f.size }, true))
      else ok (f, true)

  unfoldable pub got_full_len : Frame → Step
  got_full_len f = if ltb f.rawdata_idx f.payload_offset then ok (f, false) else (do
    a ← byte_at f.rawdata f.mask_offset
    b ← byte_at f.rawdata (f.mask_offset + 1)
    c ← byte_at f.rawdata (f.mask_offset + 2)
    d ← byte_at f.rawdata (f.mask_offset + 3)
    grow (record f {
      mask = a ∷ b ∷ c ∷ d ∷ [];
      state = sw_loaded_mask;
      size = (f.payload_offset + f.payload_len) % 2 ^ 32;
    }))

  -- `payload_len = ntohs(…)` of the two bytes at 2, or `ntohl(…)` of the four at 6.
  unfoldable pub got_short_len : Frame → Step
  got_short_len f =
      if f.payload_len_short == 126
      then (if ltb f.rawdata_idx 4 then ok (f, false) else (do
        a ← byte_at f.rawdata 2
        b ← byte_at f.rawdata 3
        got_full_len (record f {
          mask_offset = f.mask_offset + 2;
          payload_offset = f.mask_offset + 2 + mask_length;
          payload_len = a * 256 + b;
          state = sw_got_full_len;
        })))
      else if f.payload_len_short == 127
      then (if ltb f.rawdata_idx 10 then ok (f, false) else (do
        a ← byte_at f.rawdata 6
        b ← byte_at f.rawdata 7
        c ← byte_at f.rawdata 8
        d ← byte_at f.rawdata 9
        got_full_len (record f {
          mask_offset = f.mask_offset + 8;
          payload_offset = f.mask_offset + 8 + mask_length;
          payload_len = ((a * 256 + b) * 256 + c) * 256 + d;
          state = sw_got_full_len;
        })))
      else got_full_len (record f {
        payload_len = f.payload_len_short;
        payload_offset = f.mask_offset + mask_length;
        state = sw_got_full_len;
      })

  unfoldable pub got_two : Frame → Step
  got_two f = do
    a ← byte_at f.rawdata 0
    b ← byte_at f.rawdata 1
    got_short_len (record f {
      mask_offset = 2;
      fin = if bit_and a 0x80 == 0x80 then 1 else 0;
      opcode = bit_and a 0xf;
      payload_len_short = bit_and b 0x7f;
      state = sw_got_short_len;
    })

  -- The `switch`, which falls through from each case to the next; the Boolean is the `int`.
  unfoldable pub read_header : Frame → Step
  read_header f = elim f.state [
    | sw_start ↦
        if ltb f.rawdata_idx 2 then ok (f, false) else got_two (record f { state = sw_got_two })
    | sw_got_two ↦ got_two f
    | sw_got_short_len ↦ got_short_len f
    | sw_got_full_len ↦ got_full_len f
    | sw_loaded_mask ↦ ok (f, true)
  ]
