-- ===== src/DefaultCallbacks/Steps.antt =====
-- The default control callback, one guard at a time.
use libwebsock.Prelude.{◌≤◌, ◌≡◌, false, not, ◌&&◌, List, ◌∷◌, arith, drop, ok, ◌==◌, ℤ}
use libwebsock.Memory.{Allocator}
use libwebsock.Types.{ClientState, Callbacks, Frame, ws_opcode_ping, ws_opcode_close}
use libwebsock.Api.{make_pong_frame}
use libwebsock.Fragment.{make_fragment}
use libwebsock.Frames.{handle_control_frame, rewind_frame}
use libwebsock.DefaultCallbacks.{
  default_control_callback, control_opcode, default_callbacks, default_handlers,
  default_onping_callback, call, demask_in_place, handle_close,
}

module _ (cb : Callbacks) (t : ClientState) where
  -- A frame that is to be processed, of a length that is allowed, reaches the `switch`.
  pub control-control_opcode :
      (f g : Frame) (earlier : List Frame)
      → t.current_frame ≡ f ∷ earlier
      → (t.flags.sent_close_frame && not (f.opcode == ws_opcode_close)) ≡ false
      → f.payload_len ≤ 125
      → demask_in_place f ≡ ok g
      → default_control_callback cb t
        ≡ control_opcode cb (record t { current_frame = g ∷ earlier }) g
  unfolding default_control_callback
  control-control_opcode f g earlier at open_side short demasks = ground arith

  pub control_opcode-ping :
      (g : Frame) → g.opcode ≡ ws_opcode_ping → control_opcode cb t g ≡ call cb.onping t
  unfolding control_opcode
  control_opcode-ping g ping = ground arith

  pub control_opcode-close :
      (g : Frame) → g.opcode ≡ ws_opcode_close → control_opcode cb t g ≡ handle_close cb t g
  unfolding control_opcode
  control_opcode-close g close = ground arith

module _ (mem : Allocator) (t : ClientState) where
  pub onping-make_fragment :
      (g : Frame) (earlier : List Frame)
      → t.current_frame ≡ g ∷ earlier
      → default_onping_callback mem t
        ≡ make_fragment mem t (drop g.payload_offset g.rawdata) g.payload_len 0x8a
  unfolding default_onping_callback make_pong_frame
  onping-make_fragment g earlier at = ground arith

  -- `libwebsock_handle_control_frame` around the callbacks that `libwebsock_client_init` sets.
  pub handle_control_frame-default :
      (u : ClientState) (r : ℤ)
      → default_control_callback (default_handlers mem) t ≡ ok (u, r)
      → handle_control_frame (default_callbacks mem) t
        ≡ ok (record u { current_frame = rewind_frame u.current_frame }, r)
  unfolding handle_control_frame
  handle_control_frame-default u r e = rw e
