-- ===== src/Receive.antt =====
-- src/websock.c, `libwebsock_handle_recv`: bytes from the network, frame by frame.
pub mod Table
pub mod Loop
pub mod Frames
pub mod Arrival
pub mod Messages
pub mod Split
pub mod Chunks
pub mod Calls
pub mod Late
use libwebsock.Prelude.{
  ℕ, zero, suc, ◌+◌, ◌-◌, ◌^◌, Bool, true, false, List, [], ◌∷◌, ◌++◌, bit_or, Outcome, ok, fault,
  ltb, leb, ◌==◌, if◌then◌else◌, length, take, replicate, get_elem?, access, minus_one,
  is_minus_one, ℤ, pos, ◌>>=◌,
}
use libwebsock.Memory.{Allocator, byte_at, write}
use libwebsock.Types.{
  ClientState, Callbacks, Frame, FrameState, Reply, zero_frame, frame_chunk_length, sw_start,
  sw_got_two, sw_got_short_len, sw_got_full_len, sw_loaded_mask,
}
use libwebsock.Header.{read_header}
use libwebsock.Frames.{fail_and_cleanup, new_continuation_frame, handle_control_frame}
use libwebsock.Dispatch.{dispatch_message}

-- The functions AA, BB, CC and DD, and the null pointer of an entry without initialiser.
pub data FrameFn : Type 0 where
  dispatch control continuation fail null : FrameFn

-- `libwebsock_frame_lookup_table`: by the first byte, and 256 more inside a fragmented message.
-- The 512 entries have 31 rows of 16 initialisers: the last 16 entries are null.
unfoldable pub frame_lookup_table : List FrameFn
frame_lookup_table =
    fail ∷ continuation ∷ continuation ∷ replicate 13 fail
    ++ (replicate 112 fail
        ++ (fail ∷ dispatch ∷ dispatch ∷ replicate 5 fail
            ++ (control ∷ control ∷ control ∷ replicate 5 fail
                ++ (replicate 112 fail
                    ++ (continuation ∷ replicate 15 fail
                        ++ (replicate 112 fail
                            ++ (dispatch ∷ replicate 7 fail
                                ++ (control ∷ control ∷ control ∷ replicate 5 fail
                                    ++ (replicate 96 fail ++ replicate 16 null)))))))))

abbrev pub is_loaded : FrameState → Bool
is_loaded sw_loaded_mask = true
is_loaded _ = false

-- `calloc` and `payload_len = -1`, at the first byte of a frame that has none yet.
abbrev pub first_frame : Frame
first_frame = record (zero_frame (replicate frame_chunk_length 0)) { payload_len = 2 ^ 32 - 1 }

abbrev pub current_chain : List Frame → List Frame
current_chain [] = first_frame ∷ []
current_chain (f ∷ earlier) = f ∷ earlier

abbrev pub set_needs_more : Bool → ClientState → ClientState
set_needs_more b s = record s { flags = record s.flags { needs_more_data = b } }

-- How an iteration of the loop ends: it goes on past some bytes that `memcpy` took, it breaks,
-- or the function returns.
pub data Progress : Type 0 where
  again : ClientState → ℕ → ℤ → Progress
  broken returned : ClientState → ℤ → Progress

module _ (mem : Allocator) (cb : Callbacks) where
  unfoldable pub frame_fn : FrameFn → ClientState → Reply
  frame_fn dispatch s = dispatch_message mem cb s
  frame_fn control s = handle_control_frame cb s
  frame_fn continuation s = new_continuation_frame mem s
  frame_fn fail s = fail_and_cleanup cb s
  frame_fn null s = fault

  -- The frame `f` is complete: its function is looked up and called.
  unfoldable pub complete : ClientState → Frame → List Frame → ℕ → Outcome Progress
  complete s f earlier skip = byte_at f.rawdata 0 >>= (λ b.
      access
        (get_elem? frame_lookup_table (bit_or (if s.flags.receiving_fragment then 256 else 0) b))
      >>= (λ fn. frame_fn fn (record s { current_frame = f ∷ earlier }) >>= (λ called.
          if is_minus_one called.1
          then ok (broken called.0 called.1)
          else ok (again called.0 skip called.1))))

  -- The header is read: the rest of the frame is copied, as far as it is there.
  unfoldable pub copy_payload : ClientState → Frame → List Frame → List ℕ → ℤ → Outcome Progress
  copy_payload s f earlier rest retval =
      if ltb f.rawdata_idx f.size
      then (if leb (f.size - f.rawdata_idx) (length rest)
          then write f.rawdata f.rawdata_idx (take (f.size - f.rawdata_idx) rest) >>= (λ block.
            complete s (record f { rawdata = block; rawdata_idx = f.size }) earlier
              (f.size - f.rawdata_idx))
          else write f.rawdata f.rawdata_idx rest >>= (λ block. ok (
              again
                (set_needs_more true (record s {
                  current_frame =
                      record f { rawdata = block; rawdata_idx = f.rawdata_idx + length rest }
                      ∷ earlier;
                }))
                (length rest) retval)))
      else complete s f earlier 0

  -- `if (current->state != sw_loaded_mask) { err = libwebsock_read_header(current); … }`
  unfoldable pub header_read : Frame → Outcome (Frame × Bool)
  header_read f = if is_loaded f.state then ok (f, true) else read_header mem f

  -- A byte is stored in the current frame.
  unfoldable pub store_byte : ClientState → List Frame → ℕ → List ℕ → ℤ → Outcome Progress
  store_byte s [] b rest retval = fault
  store_byte s (f ∷ earlier) b rest retval = write f.rawdata f.rawdata_idx (b ∷ []) >>= (λ block.
      header_read (record f { rawdata = block; rawdata_idx = f.rawdata_idx + 1 }) >>= (λ header.
        if header.1
        then copy_payload s header.0 earlier rest retval
        else ok (again (record s { current_frame = header.0 ∷ earlier }) 0 retval)))

  -- One iteration of the loop, at the byte `b` with `rest` behind it.
  unfoldable pub receive_step : ClientState → ℕ → List ℕ → ℤ → Outcome Progress
  receive_step s b rest retval =
      if s.flags.processing_error
      then ok (returned s (pos 0))
      else store_byte (set_needs_more false s) (current_chain s.current_frame) b rest retval

  -- After the loop: `needs_more_data`, if the header of a frame is incomplete.
  unfoldable pub after_loop : ClientState → ClientState
  after_loop s = elim s.current_frame [
    | [] ↦ s
    | f ∷ earlier ↦ if is_loaded f.state then s else set_needs_more true s
  ]

  -- The loop over the bytes; the first argument counts those that `memcpy` has taken.
  unfoldable pub receive_loop : ℕ → ClientState → List ℕ → ℤ → Reply
  receive_loop skip s [] retval = ok (after_loop s, retval)
  receive_loop (suc skip) s (b ∷ rest) retval = receive_loop skip s rest retval
  receive_loop zero s (b ∷ rest) retval = receive_step s b rest retval >>= (λ progress.
      elim progress [
        | again s' skip r ↦ receive_loop skip s' rest r
        | broken s' r ↦ ok (after_loop s', r)
        | returned s' r ↦ ok (s', r)
      ])

  unfoldable pub handle_recv : ClientState → List ℕ → Reply
  handle_recv s bytes =
      if length bytes == 0 then ok (s, minus_one) else receive_loop 0 s bytes minus_one
