-- ===== src/DefaultCallbacks/Pings.antt =====
-- A ping that arrives at any time is answered, and a fragmented message around it is not lost.
use libwebsock.Prelude.{
  ℕ, ◌+◌, ◌≤◌, ◌≡◌, refl, ◌∙◌, ap, false, not, ◌&&◌, List, ◌∷◌, ◌++◌, arith, length, drop,
  take-length, drop-length, length-append, ok, signed32, ◌==◌,
}
use libwebsock.Memory.{Allocator}
use libwebsock.Types.{ClientState, Frame, sw_start, ws_opcode_ping, ws_opcode_close}
use mathlib.Core.Path.{ap₂}
use libwebsock.Fragment.{make_fragment}
use libwebsock.Frames.{handle_control_frame}
use libwebsock.Fragment.Appends.{CanSend, appended, header_size, make_fragment_frame}
use libwebsock.Wire.{server_frame}
use libwebsock.DefaultCallbacks.{default_callbacks, default_handlers, default_onping_callback}
use libwebsock.DefaultCallbacks.Steps.{
  control-control_opcode, control_opcode-ping, onping-make_fragment, handle_control_frame-default,
}
use libwebsock.DefaultCallbacks.Carried.{Carries, demasked, demask_in_place-carried}

-- The state with a given current frame.
abbrev pub at_frame : ClientState → Frame → List Frame → ClientState
at_frame s f earlier = record s { current_frame = f ∷ earlier }

module _ (mem : Allocator) (s : ClientState) (f : Frame) (earlier : List Frame)
    (header payload free : List ℕ) (carries : Carries f header payload free) where
  -- The state at which the callback for pings runs.
  abbrev at_ping : ClientState
  at_ping = at_frame s (demasked f header payload free carries) earlier

  pong_sent :
      CanSend mem s (length payload)
      → default_onping_callback mem at_ping
        ≡ ok (
          at_frame
              (appended s (server_frame 0x8a payload))
              (demasked f header payload free carries)
              earlier,
          signed32 (header_size (length payload) + length payload),
        )
  pong_sent can =
      onping-make_fragment mem at_ping (demasked f header payload free carries) earlier refl
      ∙ ap₂ (λ source len. make_fragment mem at_ping source len 0x8a)
          (ap (λ n. drop n (header ++ (payload ++ free))) carries.offset
            ∙ drop-length header (payload ++ free))
          carries.len
      ∙ make_fragment_frame mem at_ping (payload ++ free) (length payload) 0x8a can'
          (omega (arith, length-append payload free))
      ∙ ap
          (λ p. ok (
            at_frame (appended s (server_frame 0x8a p)) (demasked f header payload free carries)
                earlier,
            signed32 (header_size (length payload) + length payload),
          ))
          (take-length payload free)
    where
      can' : CanSend mem at_ping (length payload)
      can' = record {
        is_connected = can.is_connected;
        is_open = can.is_open;
        supported = can.supported;
        sized = can.sized;
        below = can.below;
        granted = can.granted;
      }

  -- A masked ping of at most 125 bytes, on a connected client that has not sent a close frame, is
  -- answered by a pong with the same payload; the frames of a fragmented message behind it stay as
  -- they were, and the ping's frame is made ready for the next header.
  pub ping_answered :
      f.opcode ≡ ws_opcode_ping
      → length payload ≤ 125
      → s.flags.sent_close_frame ≡ false
      → CanSend mem s (length payload)
      → handle_control_frame (default_callbacks mem) (at_frame s f earlier)
        ≡ ok (
          at_frame
              (appended s (server_frame 0x8a payload))
              (record (demasked f header payload free carries) {
                state = sw_start;
                rawdata_idx = 0;
              })
              earlier,
          signed32 (header_size (length payload) + length payload),
        )
  ping_answered ping short open_side can =
      handle_control_frame-default mem (at_frame s f earlier) _ _ (
        control-control_opcode (default_handlers mem) (at_frame s f earlier) f
          (demasked f header payload free carries) earlier refl
          (ap (λ b. b && not (f.opcode == ws_opcode_close)) open_side) (omega (arith, carries.len))
          (demask_in_place-carried f header payload free carries)
        ∙ control_opcode-ping (default_handlers mem) at_ping
            (demasked f header payload free carries) ping
        ∙ pong_sent can)
