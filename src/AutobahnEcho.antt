-- ===== src/AutobahnEcho.antt =====
-- examples/autobahn-echo.c: a server that sends back what each client sends, on one connection.
pub mod Echoes
pub mod Sessions
use libwebsock.Prelude.{
  ℕ, ◌+◌, ◌-◌, ◌*◌, ◌^◌, Bool, true, false, List, [], ◌∷◌, ◌++◌, none, some, Outcome, ok, fault,
  leb, ◌==◌, not, if◌then◌else◌, length, replicate, bit_and, minus_one, is_minus_one, ℤ, pos,
  negsuc, ◌>>=◌,
}
use libwebsock.Memory.{Allocator, read}
use libwebsock.Types.{
  ClientState, Callbacks, Flags, Message, Reply, ws_opcode_text, ws_opcode_binary,
}
use libwebsock.Api.{make_text_data_frame_with_length, make_binary_data_frame}
use libwebsock.Client.{client_init, cleanup_outdata}
use libwebsock.Handshake.{Digest, max_sub_protocols, populate_handshake}
use libwebsock.Receive.{handle_recv}
use libwebsock.Safety.Control.{with_onmessage}

-- `MAXMSG`
abbrev pub maxmsg : ℕ
maxmsg = 4 * 1024

-- The socket: what `write` returns, call by call, and then -1, and what it has been given.
pub record Socket : Type 0 where
  pub results : List ℤ
  pub given : List (List ℕ)

abbrev pub next_result : List ℤ → ℤ
next_result [] = minus_one
next_result (n ∷ ns) = n

abbrev pub later_results : List ℤ → List ℤ
later_results [] = []
later_results (n ∷ ns) = ns

abbrev pub is_positive : ℤ → Bool
is_positive (pos n) = not (n == 0)
is_positive (negsuc n) = false

-- What a call leaves behind: the socket, the client, and its `int`.
abbrev pub Served : Type 0
Served = Outcome (Socket × ClientState × ℤ)

-- However few of the bytes `write` takes, the others are freed with them.
unfoldable pub write_to_client : Socket → ClientState → Served
write_to_client socket s = elim s.out_data [
  | none ↦ ok (socket, s, pos 0)
  | some out ↦ read out.bytes 0 out.data_sz >>= (λ bytes. ok (
    record { results = later_results socket.results; given = socket.given ++ bytes ∷ [] },
    cleanup_outdata s,
    (if is_positive (next_result socket.results) then pos 0 else minus_one),
  ))
]

-- The bits of `state->flags` in src/websock.h.
unfoldable pub flags_word : Flags → ℕ
flags_word flags =
    (if flags.connecting then 2 ^ 0 else 0)
    + (if flags.connected then 2 ^ 1 else 0)
    + (if flags.receiving_fragment then 2 ^ 2 else 0)
    + (if flags.received_close_frame then 2 ^ 3 else 0)
    + (if flags.sent_close_frame then 2 ^ 4 else 0)
    + (if flags.processing_error then 2 ^ 5 else 0)
    + (if flags.needs_more_data then 2 ^ 6 else 0)
    + (if flags.should_close then 2 ^ 7 else 0)
    + (if flags.continuous_frame_in_progress then 2 ^ 8 else 0)

abbrev pub state_needs_more_data : ℕ
state_needs_more_data = 2 ^ 6

-- `state->flags & STATE_NEEDS_MORE_DATA == 0`, where `==` binds first.
unfoldable pub gives_up : Flags → Bool
gives_up flags = not (bit_and (flags_word flags) (if state_needs_more_data == 0 then 1 else 0) == 0)

-- `if (… == -1) return -1;`, and else no value: `left` is what the caller then reads.
abbrev pub made_reply : ℤ → ClientState × ℤ → Reply
made_reply left made = ok (made.0, (if is_minus_one made.1 then minus_one else left))

module _ (mem : Allocator) (left : ℤ) where
  unfoldable pub onmessage_callback : ClientState → Message → Reply
  onmessage_callback s msg =
      if msg.opcode == ws_opcode_text
      then make_text_data_frame_with_length mem s msg.payload msg.payload_len >>= made_reply left
      else if msg.opcode == ws_opcode_binary
      then make_binary_data_frame mem s msg.payload msg.payload_len >>= made_reply left
      else ok (s, minus_one)

  abbrev pub echo_callbacks : Callbacks
  echo_callbacks = with_onmessage mem (some onmessage_callback)

  module _ (sha1 : List ℕ → Digest) (hostname : List ℕ) (supported : List (List ℕ)) where
    -- `chunk` is what `read` puts into the buffer of zeros: nothing, where it returns 0 or less.
    unfoldable pub read_from_client : List ℕ → Socket → ClientState → Served
    read_from_client chunk socket s =
        if length chunk == 0
        then ok (socket, s, minus_one)
        else if not (leb (length chunk) maxmsg)
        then fault
        else if s.flags.connecting
        then populate_handshake mem sha1 hostname supported s
            (chunk ++ replicate (maxmsg - length chunk) 0) (length chunk)
          >>= (λ greeted.
              if is_minus_one greeted.1
              then ok (socket, greeted.0, minus_one)
              else write_to_client socket greeted.0)
        else handle_recv mem echo_callbacks s chunk >>= (λ handled.
          if is_minus_one handled.1
          then ok (socket, handled.0, (if gives_up handled.0.flags then minus_one else pos 0))
          else write_to_client socket handled.0 >>= (λ written. ok (
            written.0,
            written.1,
            (if written.1.flags.should_close then minus_one else written.2),
          )))

    -- The loop, by what `read` delivers, call by call, and then nothing. The client is destroyed
    -- and the socket closed at its end: what is left is what was written.
    unfoldable pub serve : List (List ℕ) → Socket → ClientState → Outcome (List (List ℕ))
    serve [] socket s = read_from_client [] socket s >>= (λ served. ok served.0.given)
    serve (chunk ∷ chunks) socket s = read_from_client chunk socket s >>= (λ served.
        let on = serve chunks served.0 served.1 in
        elim served.2 [ negsuc n ↦ ok served.0.given | pos n ↦ on ])

  -- The new client is zeroed: it has no host name and no protocols.
  unfoldable pub do_processing :
      (List ℕ → Digest) → List (List ℕ) → List ℤ → Outcome (List (List ℕ))
  do_processing sha1 chunks results =
      serve sha1 [] (replicate max_sub_protocols []) chunks
        (record { results = results; given = [] }) client_init
