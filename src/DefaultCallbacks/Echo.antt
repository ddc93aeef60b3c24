-- ===== src/DefaultCallbacks/Echo.antt =====
-- The default answer to a close frame: its code and reason are sent back.
use libwebsock.Prelude.{ℕ, List, ◌∷◌}
use libwebsock.Memory.{Allocator}
use libwebsock.Types.{ClientState, Frame}
use libwebsock.Wire.{server_frame}
use libwebsock.Api.{with_sent_close}
use libwebsock.Fragment.Appends.{appended}
use libwebsock.DefaultCallbacks.{with_received_close}
use libwebsock.DefaultCallbacks.Carried.{Carries}
use libwebsock.DefaultCallbacks.Closing.{at_close}

module _ (mem : Allocator) (s : ClientState) (f : Frame) (earlier : List Frame)
    (header reason free : List ℕ) (hi lo : ℕ)
    (carries : Carries f header (hi ∷ lo ∷ reason) free) where
  -- The state that the answer leaves: closed on both sides, with the echo to be sent.
  abbrev pub echoed : ClientState
  echoed = with_sent_close (
      appended (with_received_close (at_close s f earlier header reason free hi lo carries))
        (server_frame 0x88 (hi ∷ lo ∷ reason)))
