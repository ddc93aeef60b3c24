-- ===== src/Frames.antt =====
-- src/frames.c, and `libwebsock_error` and `libwebsock_populate_close_info_from_frame` of
-- src/websock.c: errors, continuation frames, control frames.
pub mod Failing
use libwebsock.Prelude.{
  ℕ, ◌+◌, ◌-◌, ◌*◌, true, List, [], ◌∷◌, Option, none, some, Outcome, ok, fault, ltb, if◌then◌else◌,
  replicate, pos, ◌>>=◌,
}
use libwebsock.Memory.{Allocator, byte_at, read, write}
use libwebsock.Types.{
  ClientState, Callbacks, CloseInfo, Frame, Reply, sw_start, zero_frame, frame_chunk_length,
  ws_close_protocol_error,
}

-- `libwebsock_free_all_frames` walks to the first frame of the chain and frees every frame to
-- the last; `current_frame = NULL` follows.
abbrev pub no_frames : ClientState → ClientState
no_frames s = record s { current_frame = [] }

-- `if (state->onerror) retval = state->onerror(state, close_code)`
abbrev pub call_onerror : Callbacks → ClientState → ℕ → Reply
call_onerror cb s close_code = elim cb.onerror [
  | none ↦ ok (s, pos 0)
  | some onerror ↦ onerror s close_code
]

unfoldable pub error : Callbacks → ClientState → ℕ → Reply
error cb s close_code =
    call_onerror cb (record s { flags = record s.flags { processing_error = true } }) close_code
    >>= (λ called. ok (no_frames called.0, called.1))

unfoldable pub fail_and_cleanup : Callbacks → ClientState → Reply
fail_and_cleanup cb s =
    error cb (record s { flags = record s.flags { should_close = true } }) ws_close_protocol_error

-- `current->next_frame = new` goes through the current frame, which must not be NULL.
unfoldable pub new_continuation_frame : Allocator → ClientState → Reply
new_continuation_frame mem s = elim s.current_frame [
  | [] ↦ fault
  | current ∷ earlier ↦ ok (
    record s {
      flags = record s.flags { receiving_fragment = true };
      current_frame = zero_frame (mem.garbage frame_chunk_length) ∷ current ∷ earlier;
    },
    pos 0,
  )
]

-- `state->current_frame->state = 0` and `rawdata_idx = 0`, if there still is a frame.
abbrev pub rewind_frame : List Frame → List Frame
rewind_frame [] = []
rewind_frame (current ∷ earlier) = record current { state = sw_start; rawdata_idx = 0 } ∷ earlier

unfoldable pub handle_control_frame : Callbacks → ClientState → Reply
handle_control_frame cb s = elim cb.oncontrol [
  | none ↦ fault
  | some oncontrol ↦ oncontrol s >>= (λ called.
      ok (record called.0 { current_frame = rewind_frame called.0.current_frame }, called.1))
]

-- The new `*info`; the copy is bounded by the 124 bytes of `reason`.
unfoldable pub populate_close_info_from_frame :
    Option CloseInfo → Frame → Outcome (Option CloseInfo)
populate_close_info_from_frame info f = if ltb f.payload_len 2 then ok info else (do
  a ← byte_at f.rawdata f.payload_offset
  b ← byte_at f.rawdata (f.payload_offset + 1)
  copied ←
      read f.rawdata (f.payload_offset + 2)
        (if ltb 124 (f.payload_len - 2) then 124 else f.payload_len - 2)
  reason ← write (replicate 124 0) 0 copied
  ok (some (record { code = a * 256 + b; reason = reason })))
