-- ===== src/Tests/Chunks.antt =====
-- A message that two calls bring.
use libwebsock.Prelude.{ℕ, ◌≡◌, refl, List, [], ◌∷◌, ◌++◌, ok, fault, exited, minus_one, Outcome}
use libwebsock.Types.{ClientState}
use libwebsock.Receive.{Progress, again, broken, returned, handle_recv, after_loop}
use libwebsock.Receive.Chunks.{receive_progress}
use libwebsock.Receive.Calls.{state_of, handle_recv_calls}
use libwebsock.Tests.Data.{ample, connected_client, handlers}
use libwebsock.Tests.Runs.{whole_receiver}

-- A text frame, up to the first byte of its payload.
abbrev first_part : List ℕ
first_part = 0x81 ∷ 0x83 ∷ 1 ∷ 2 ∷ 3 ∷ 4 ∷ 0x60 ∷ []

abbrev state_at : Outcome Progress → ClientState
state_at (ok (again s k r)) = s
state_at (ok (broken s r)) = s
state_at (ok (returned s r)) = s
state_at fault = connected_client
state_at exited = connected_client

unfoldable halfway : ClientState
unfolding whole_receiver receive_progress
halfway = state_at (receive_progress ample handlers 0 connected_client first_part minus_one)

handle_recv_calls_example :
    (handle_recv ample handlers connected_client first_part
      ≡ ok (after_loop ample handlers halfway, minus_one))
    × (state_of (handle_recv ample handlers connected_client (first_part ++ 0xc1 ∷ 0xaa ∷ []))
        ≡ state_of
            (handle_recv ample handlers (after_loop ample handlers halfway) (0xc1 ∷ 0xaa ∷ [])))
unfolding halfway receive_progress whole_receiver
handle_recv_calls_example =
    handle_recv_calls ample handlers connected_client halfway 0x81 0xc1
      (0x83 ∷ 1 ∷ 2 ∷ 3 ∷ 4 ∷ 0x60 ∷ []) (0xaa ∷ []) minus_one refl refl
