-- ===== src/Fragment/Refusals.antt =====
-- When `libwebsock_make_fragment` refuses to send.
use libwebsock.Prelude.{ℕ, ◌<◌, ◌≡◌, ◌⊎◌, true, false, ◌&&◌, List, arith, ok, minus_one}
use libwebsock.Memory.{Allocator}
use libwebsock.Types.{ClientState}
use libwebsock.Fragment.{make_fragment}

-- A client that is not connected, one that has sent and received a close frame, and a payload of
-- more than 0xfffffff0 bytes are refused with -1, and the state stays as it was, whatever the
-- allocator and the source.
pub make_fragment_refuses :
    (mem : Allocator) (s : ClientState) (source : List ℕ) (len flags : ℕ)
    → (s.flags.connected ≡ false)
      ⊎ ((s.flags.sent_close_frame && s.flags.received_close_frame) ≡ true)
      ⊎ (0xfffffff0 < len)
    → make_fragment mem s source len flags ≡ ok (s, minus_one)
unfolding make_fragment
make_fragment_refuses mem s source len flags h = ground arith
