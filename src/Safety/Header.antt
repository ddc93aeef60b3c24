-- ===== src/Safety/Header.antt =====
-- `libwebsock_read_header` stays inside the frame's block, whatever the bytes are.
use mathlib.Core.Path.{subst}
use libwebsock.Prelude.{
  sym, ℕ, ◌+◌, ◌-◌, ◌%◌, ◌≤◌, ◌<◌, ◌^◌, ◌≡◌, ◌⊎◌, refl, ◌∙◌, Bool, true, false, List, arith, length,
  ok, Safely, >>=-Safely, ltb, ltb→lt, if◌then◌else◌, ◌==◌, Bool-cases, inl, inr, le-bit_or,
  bit_or-lt, ◌>>=◌,
}
use libwebsock.Memory.{Allocator, byte_at, lws_realloc}
use libwebsock.Types.{
  Frame, FrameState, sw_start, sw_got_two, sw_got_short_len, sw_got_full_len, sw_loaded_mask,
}
use libwebsock.Dispatch.Masking.{Octets}
use libwebsock.Header.{
  Step, smear, shift_int, round_up, size_of_int, grow, got_full_len, got_short_len, got_two,
  read_header,
}
use libwebsock.Header.Whole.{seven_bits}
use libwebsock.Safety.{IsBounded, IsBlock, IsDone, IsOpen, IsOpenAt, first_of}
use libwebsock.Safety.Blocks.{byte_at-Safely, lws_realloc-Safely, Resized}

le-smear : (k x : ℕ) → x ≤ smear k x
unfolding smear
le-smear k x = le-bit_or x _

module _ (k : ℕ) (small : k ≤ 32) where
  smear-lt : (x : ℕ) → x < 2 ^ 32 → shift_int x k < 2 ^ 32 → smear k x < 2 ^ 32
  unfolding smear
  smear-lt x h le = bit_or-lt 32 x (shift_int x k) h le

-- The pattern of the new size is no less than the size, or 0.
round_up-ge : (size : ℕ) → 0 < size → size < 2 ^ 32 → (size ≤ round_up size) ⊎ (round_up size ≡ 0)
unfolding round_up
round_up-ge size positive small =
    let x0 = (size + 2 ^ 32 - 1) % 2 ^ 32 in
    let x1 = smear 1 x0 in
    let x2 = smear 2 x1 in
    let x3 = smear 4 x2 in
    let x4 = smear 8 x3 in
    let x5 = smear 16 x4 in
    let b0 : x0 < 2 ^ 32 = omega arith in
    let b1 : x1 < 2 ^ 32 = smear-lt 1 (omega arith) x0 b0 (ground arith) in
    let b2 : x2 < 2 ^ 32 = smear-lt 2 (omega arith) x1 b1 (ground arith) in
    let b3 : x3 < 2 ^ 32 = smear-lt 4 (omega arith) x2 b2 (ground arith) in
    let b4 : x4 < 2 ^ 32 = smear-lt 8 (omega arith) x3 b3 (ground arith) in
    let b5 : x5 < 2 ^ 32 = smear-lt 16 (omega arith) x4 b4 (ground arith) in
    ground (arith, le-smear 1 x0, le-smear 2 x1, le-smear 4 x2, le-smear 8 x3, le-smear 16 x4)

-- What a step on the header leaves of a frame that begins with `v`.
abbrev pub HeaderStep : ℕ → Frame × Bool → Type 0
HeaderStep v (f, true) =
    IsBlock f
    × IsDone f
    × (f.state ≡ sw_loaded_mask)
    × (f.size ≤ length f.rawdata)
    × (0 < f.rawdata_idx)
    × (first_of f ≡ v)
HeaderStep v (f, false) = IsBlock f × IsOpen f × (first_of f ≡ v)

-- The fields of a frame whose header is read, but for the room for its payload.
record IsRead (v : ℕ) (f : Frame) : Type 0 where
  block : IsBlock f
  loaded : f.state ≡ sw_loaded_mask
  begun : 0 < f.rawdata_idx
  first : first_of f ≡ v
  key : Octets f.mask
  small : f.payload_len < 2 ^ 32
  size : f.size ≡ (f.payload_offset + f.payload_len) % 2 ^ 32
  offset : f.payload_offset ≤ 14

module _ (mem : Allocator) (bounded : IsBounded mem) (v : ℕ) where
  -- A frame that is read, in a block with room for it.
  roomy-HeaderStep : (f : Frame) → IsRead v f → f.size ≤ length f.rawdata → HeaderStep v (f, true)
  roomy-HeaderStep f is room = (
    is.block,
    record {
      bytes = is.block.bytes;
      key = is.key;
      below = is.small;
      inside = λ small. omega (arith, is.size, is.offset, room);
    },
    is.loaded,
    room,
    is.begun,
    is.first,
  )

  grown-HeaderStep :
      (f : Frame) (out : List ℕ)
      → IsRead v f
      → Resized f.rawdata (size_of_int (round_up f.size)) out
      → f.rawdata_sz < f.size
      → HeaderStep v (record f { rawdata = out; rawdata_sz = round_up f.size }, true)
  grown-HeaderStep f out is resized more =
      let size_small : f.size < 2 ^ 32 = omega (arith, is.size) in
      let same : size_of_int (round_up f.size) ≡ round_up f.size = ground (arith, resized.small) in
      let room : f.size ≤ length out = ground (
        arith,
        same,
        round_up-ge f.size (omega arith) size_small,
        resized.positive,
        resized.new_size,
      ) in
      roomy-HeaderStep (record f { rawdata = out; rawdata_sz = round_up f.size })
        (record {
          block = record {
            sized = omega (arith, same, resized.new_size);
            room = omega (arith, is.block.sized, is.block.room, room);
            bytes = resized.octets;
          };
          loaded = is.loaded;
          begun = is.begun;
          first = resized.first (omega (arith, is.block.room)) ∙ is.first;
          key = is.key;
          small = is.small;
          size = is.size;
          offset = is.offset;
        })
        room

  grow-Safely : (f : Frame) → IsRead v f → Safely (HeaderStep v) (grow mem f)
  unfolding grow
  grow-Safely f is = elim (Bool-cases (ltb f.rawdata_sz f.size)) [
    | inr fits ↦ rw fits (roomy-HeaderStep f is (ground (arith, fits, is.block.sized)))
    | inl more ↦ rw more (
        >>=-Safely (Resized f.rawdata (size_of_int (round_up f.size))) (HeaderStep v)
          (lws_realloc mem f.rawdata (size_of_int (round_up f.size))) _
          (lws_realloc-Safely mem f.rawdata (size_of_int (round_up f.size)) bounded is.block.bytes)
          (λ out resized. grown-HeaderStep f out is resized (ltb→lt f.rawdata_sz f.size more)))
  ]

  -- A byte of the header is there to be read.
  header_byte :
      (f : Frame) (i : ℕ) (k : ℕ → Step)
      → IsBlock f
      → i < 14
      → ((b : ℕ) → b < 256 → Safely (HeaderStep v) (k b))
      → Safely (HeaderStep v) (byte_at f.rawdata i >>= k)
  header_byte f i k block inside next =
      >>=-Safely (λ b. b < 256) (HeaderStep v) (byte_at f.rawdata i) k
        (byte_at-Safely f.rawdata i (omega (arith, block.room)) block.bytes) next

  got_full_len-Safely :
      (f : Frame)
      → IsBlock f
      → first_of f ≡ v
      → f.state ≡ sw_got_full_len
      → 0 < f.rawdata_idx
      → f.payload_offset ≡ f.mask_offset + 4
      → f.payload_offset ≤ 14
      → f.payload_len < 2 ^ 32
      → Safely (HeaderStep v) (got_full_len mem f)
  unfolding got_full_len
  got_full_len-Safely f block first st begun offset small_offset small =
      elim (Bool-cases (ltb f.rawdata_idx f.payload_offset)) [
        | inl less ↦ rw less (
          block,
          subst (λ s. IsOpenAt s f) (sym st)
              (begun, ltb→lt f.rawdata_idx f.payload_offset less, offset, small_offset, small),
          first,
        )
        | inr there ↦ rw there (
            header_byte f f.mask_offset _ block (omega arith) (λ a byte_a.
              header_byte f (f.mask_offset + 1) _ block (omega arith) (λ b byte_b.
                header_byte f (f.mask_offset + 2) _ block (omega arith) (λ c byte_c.
                  header_byte f (f.mask_offset + 3) _ block (omega arith) (λ d byte_d.
                    grow-Safely _ (record {
                      block = record {
                        sized = block.sized;
                        room = block.room;
                        bytes = block.bytes;
                      };
                      loaded = refl;
                      begun = begun;
                      first = first;
                      key = (byte_a, (byte_b, (byte_c, (byte_d, tt))));
                      small = small;
                      size = refl;
                      offset = small_offset;
                    }))))))
      ]

  got_short_len-Safely :
      (f : Frame)
      → IsBlock f
      → first_of f ≡ v
      → f.state ≡ sw_got_short_len
      → 0 < f.rawdata_idx
      → f.mask_offset ≡ 2
      → f.payload_len_short < 128
      → Safely (HeaderStep v) (got_short_len mem f)
  unfolding got_short_len
  got_short_len-Safely f block first st begun mask short =
      elim (Bool-cases (f.payload_len_short == 126)) [
        | inl medium ↦ rw medium (elim (Bool-cases (ltb f.rawdata_idx 4)) [
          | inl less ↦ rw less (waits (ground (arith, less)))
          | inr there ↦ rw there (
              header_byte f 2 _ block (omega arith) (λ a byte_a.
                header_byte f 3 _ block (omega arith)
                  (λ b byte_b. full _ _ _ (omega arith) (omega arith) (omega arith))))
        ])
        | inr other ↦ rw other (elim (Bool-cases (f.payload_len_short == 127)) [
          | inl long ↦ rw long (elim (Bool-cases (ltb f.rawdata_idx 10)) [
            | inl less ↦ rw less (waits (ltb→lt f.rawdata_idx 10 less))
            | inr there ↦ rw there (
                header_byte f 6 _ block (omega arith) (λ a byte_a.
                  header_byte f 7 _ block (omega arith) (λ b byte_b.
                    header_byte f 8 _ block (omega arith) (λ c byte_c.
                      header_byte f 9 _ block (omega arith)
                        (λ d byte_d. full _ _ _ (omega arith) (omega arith) (omega arith))))))
          ])
          | inr small ↦ rw small (full _ _ _ (omega arith) (omega arith) (omega arith))
        ])
      ]
    where
      waits : f.rawdata_idx < 10 → HeaderStep v (f, false)
      waits less = (block, subst (λ s. IsOpenAt s f) (sym st) (begun, less, mask, short), first)

      full :
          (m : ℕ) (offset : ℕ) (len : ℕ)
          → offset ≡ m + 4
          → offset ≤ 14
          → len < 2 ^ 32
          → Safely (HeaderStep v) (
              got_full_len mem (record f {
                mask_offset = m;
                payload_offset = offset;
                payload_len = len;
                state = sw_got_full_len;
              }))
      full m offset len e small below =
          got_full_len-Safely _
            (record { sized = block.sized; room = block.room; bytes = block.bytes }) first refl
            begun e small below

  got_two-Safely :
      (f : Frame)
      → IsBlock f
      → first_of f ≡ v
      → 0 < f.rawdata_idx
      → Safely (HeaderStep v) (got_two mem f)
  unfolding got_two
  got_two-Safely f block first begun = header_byte f 0 _ block (omega arith) (λ a byte_a.
      header_byte f 1 _ block (omega arith) (λ b byte_b.
        got_short_len-Safely _
          (record { sized = block.sized; room = block.room; bytes = block.bytes }) first refl begun
          refl (omega (arith, seven_bits b byte_b))))

  -- The condition under which a byte has been stored in an open frame, by the frame's state.
  abbrev pub IsStored : FrameState → Frame → Type 0
  IsStored sw_start f = f.rawdata_idx ≤ 2
  IsStored sw_got_two f = ⊥
  IsStored sw_got_short_len f = (f.mask_offset ≡ 2) × (f.payload_len_short < 128)
  IsStored sw_got_full_len f =
      (f.payload_offset ≡ f.mask_offset + 4) × (f.payload_offset ≤ 14) × (f.payload_len < 2 ^ 32)
  IsStored sw_loaded_mask f = (f.size ≤ length f.rawdata) × IsDone f

  -- The `switch`, by a state.
  abbrev from_state : FrameState → Frame → Step
  from_state st f = elim st [
    | sw_start ↦
        if ltb f.rawdata_idx 2 then ok (f, false) else got_two mem (record f { state = sw_got_two })
    | sw_got_two ↦ got_two mem f
    | sw_got_short_len ↦ got_short_len mem f
    | sw_got_full_len ↦ got_full_len mem f
    | sw_loaded_mask ↦ ok (f, true)
  ]

  from_state-Safely :
      (st : FrameState) (f : Frame)
      → f.state ≡ st
      → IsStored st f
      → IsBlock f
      → first_of f ≡ v
      → 0 < f.rawdata_idx
      → Safely (HeaderStep v) (from_state st f)
  from_state-Safely sw_start f st stored block first begun =
      elim (Bool-cases (ltb f.rawdata_idx 2)) [
        | inl less ↦
            rw less (block, subst (λ s. IsOpenAt s f) (sym st) (ltb→lt f.rawdata_idx 2 less), first)
        | inr there ↦ rw there (
            got_two-Safely _
              (record { sized = block.sized; room = block.room; bytes = block.bytes }) first begun)
      ]
  from_state-Safely sw_got_two f st stored block first begun = absurd stored
  from_state-Safely sw_got_short_len f st (mask, short) block first begun =
      got_short_len-Safely f block first st begun mask short
  from_state-Safely sw_got_full_len f st (offset, small_offset, small) block first begun =
      got_full_len-Safely f block first st begun offset small_offset small
  from_state-Safely sw_loaded_mask f st (room, done) block first begun =
      (block, done, st, room, begun, first)

  pub read_header-Safely :
      (f : Frame)
      → IsStored f.state f
      → IsBlock f
      → first_of f ≡ v
      → 0 < f.rawdata_idx
      → Safely (HeaderStep v) (read_header mem f)
  unfolding read_header
  read_header-Safely f stored block first begun =
      from_state-Safely f.state f refl stored block first begun
