-- ===== src/DefaultCallbacks.antt =====
-- src/default_callbacks.c: what a client does about control frames, pings, closes and errors
-- unless the application says otherwise.
pub mod Steps
pub mod Carried
pub mod Closing
pub mod Echo
pub mod Pings
use libwebsock.Prelude.{
  ℕ, ◌+◌, Bool, true, false, not, ◌&&◌, ◌||◌, List, [], ◌∷◌, Option, none, some, Outcome, ok, fault,
  ltb, leb, ◌==◌, if◌then◌else◌, drop, minus_one, ℤ, pos, ◌>>=◌,
}
use libwebsock.Utf8.{validate_utf8_sequence}
use libwebsock.Memory.{Allocator, read, write}
use libwebsock.Types.{
  ClientState, Callbacks, CloseInfo, Frame, Message, Reply, ws_opcode_close, ws_opcode_ping,
  ws_opcode_pong, ws_close_normal, ws_close_protocol_error, ws_close_reserved, ws_close_no_code,
  ws_close_dirty,
}
use libwebsock.Api.{make_close_frame, make_close_frame_with_reason, make_pong_frame}
use libwebsock.Frames.{error, fail_and_cleanup, populate_close_info_from_frame}
use libwebsock.Dispatch.{demask}

-- The codes that a close frame may not carry.
unfoldable pub bad_close_code : ℕ → Bool
bad_close_code code =
    ltb code ws_close_normal
    || code == ws_close_reserved
    || code == ws_close_no_code
    || code == ws_close_dirty
    || (ltb 1011 code && ltb code 3000)

-- `if (state->f) retval = state->f(state)`
abbrev pub call : Option (ClientState → Reply) → ClientState → Reply
call none s = ok (s, pos 0)
call (some f) s = f s

-- The loop that demasks the payload in place.
unfoldable pub demask_in_place : Frame → Outcome Frame
demask_in_place f = read f.rawdata f.payload_offset f.payload_len >>= (λ payload.
    write f.rawdata f.payload_offset (demask f.mask 0 payload)
    >>= (λ block. ok (record f { rawdata = block })))

abbrev pub with_received_close : ClientState → ClientState
with_received_close s = record s { flags = record s.flags { received_close_frame = true } }

module _ (cb : Callbacks) where
  unfoldable pub acknowledge_close : ClientState → Reply
  acknowledge_close s =
      if s.flags.sent_close_frame
      then ok (s, minus_one)
      else call cb.onclose (with_received_close s)

  unfoldable pub check_close_info : ClientState → Reply
  check_close_info s = elim s.close_info [
    | none ↦ acknowledge_close s
    | some info ↦
        if bad_close_code info.code
        then error cb s ws_close_protocol_error
        else (validate_utf8_sequence info.reason
            >>= (λ valid. if valid then acknowledge_close s else fail_and_cleanup cb s))
  ]

  -- `if (!state->close_info && payload_len >= 2)`
  unfoldable pub recorded_close_info : ClientState → Frame → Outcome (Option CloseInfo)
  recorded_close_info s f = elim s.close_info [
    | some info ↦ ok (some info)
    | none ↦ if leb 2 f.payload_len then populate_close_info_from_frame none f else ok none
  ]

  unfoldable pub handle_close : ClientState → Frame → Reply
  handle_close s f =
      if f.payload_len == 1
      then fail_and_cleanup cb s
      else (recorded_close_info s f >>= (λ info. check_close_info (record s { close_info = info })))

  -- The `switch` on the opcode of a control frame.
  unfoldable pub control_opcode : ClientState → Frame → Reply
  control_opcode s f =
      if f.opcode == ws_opcode_close
      then handle_close s f
      else if f.opcode == ws_opcode_ping
      then call cb.onping s
      else if f.opcode == ws_opcode_pong
      then call cb.onpong s
      else error cb s ws_close_protocol_error

  -- The frame is the state's current one.
  unfoldable pub default_control_callback : ClientState → Reply
  default_control_callback s = elim s.current_frame [
    | [] ↦ fault
    | f ∷ earlier ↦
        if s.flags.sent_close_frame && not (f.opcode == ws_opcode_close)
        then ok (s, pos 0)
        else if ltb 125 f.payload_len
        then error cb s ws_close_protocol_error
        else (demask_in_place f
            >>= (λ g. control_opcode (record s { current_frame = g ∷ earlier }) g))
  ]

module _ (mem : Allocator) where
  unfoldable pub default_onclose_callback : ClientState → Reply
  default_onclose_callback s = elim s.close_info [
    | some info ↦ make_close_frame_with_reason mem s info.code (some info.reason)
    | none ↦ make_close_frame mem s
  ]

  unfoldable pub default_onmessage_callback : ClientState → Message → Reply
  default_onmessage_callback s msg = ok (s, pos 0)

  unfoldable pub default_onping_callback : ClientState → Reply
  default_onping_callback s = elim s.current_frame [
    | [] ↦ ok (s, minus_one)
    | f ∷ earlier ↦ make_pong_frame mem s (drop f.payload_offset f.rawdata) f.payload_len
  ]

  unfoldable pub default_onpong_callback : ClientState → Reply
  default_onpong_callback s = ok (s, pos 0)

  unfoldable pub default_onerror_callback : ClientState → ℕ → Reply
  default_onerror_callback s code = make_close_frame_with_reason mem s code none

  -- The callbacks that the default control callback finds in the state.
  abbrev pub default_handlers : Callbacks
  default_handlers = record {
    onmessage = some default_onmessage_callback;
    oncontrol = none;
    onclose = some default_onclose_callback;
    onpong = none;
    onping = some default_onping_callback;
    onerror = some default_onerror_callback;
  }

  -- The callbacks that `libwebsock_client_init` sets.
  abbrev pub default_callbacks : Callbacks
  default_callbacks = record default_handlers {
    oncontrol = some (default_control_callback default_handlers);
  }
