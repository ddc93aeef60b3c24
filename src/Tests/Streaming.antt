-- ===== src/Tests/Streaming.antt =====
-- A stream of frames, at a concrete client that echoes.
use libwebsock.Prelude.{
  ℕ, ◌+◌, ◌≡◌, refl, false, List, [], ◌∷◌, arith, inl, none, some, ok, minus_one,
}
use libwebsock.Utf8.Grammar.{encode_all}
use libwebsock.Types.{ClientState, Message, Reply}
use libwebsock.Fragment.{make_fragment, append_frame, make_room, extended_length}
use libwebsock.Memory.{read, write, lws_calloc, lws_realloc}
use libwebsock.Receive.{handle_recv}
use libwebsock.Safety.Control.{with_onmessage}
use libwebsock.Stream.{Key, Piece, last, more, ping, pong, wire, Followed, follow}
use libwebsock.Stream.Shown.{IsSettled}
use libwebsock.Stream.Kept.{make_fragment-IsSettled}
use libwebsock.Stream.Pieces.{Keeps}
use libwebsock.Stream.Follows.{Matches, handle_recv-Matches}
use libwebsock.Tests.Data.{ample, connected_client}

-- An `onmessage` that sends what it gets.
abbrev echo : ClientState → Message → Reply
echo s msg = make_fragment ample s msg.payload msg.payload_len (0x80 + msg.opcode)

echo-Keeps : Keeps ample echo
echo-Keeps s msg settled =
    make_fragment-IsSettled ample s settled msg.payload msg.payload_len (0x80 + msg.opcode)

abbrev key : Key
key = record { k0 = 1; k1 = 2; k2 = 3; k3 = 4 }

-- "aé", cut within the second letter, with a ping and a pong between the parts.
abbrev pieces : List Piece
pieces = ping key (7 ∷ []) ∷ pong key [] ∷ last 1 key (0xa9 ∷ []) ∷ []

connected_client-IsSettled : IsSettled ample connected_client
connected_client-IsSettled = record {
  idle = record {
    running = refl;
    open_side = refl;
    outside = refl;
    no_frame = refl;
    grants = λ m h. refl;
  };
  noted = refl;
}

handle_recv-Matches_example :
    Matches ample echo echo-Keeps
      (follow ample echo connected_client none (more 1 key (0x61 ∷ 0xc3 ∷ []) ∷ pieces) minus_one)
      (handle_recv ample
        (with_onmessage ample (some echo))
        connected_client
        (wire false (more 1 key (0x61 ∷ 0xc3 ∷ []) ∷ pieces)))
unfolding encode_all
handle_recv-Matches_example =
    handle_recv-Matches ample echo echo-Keeps connected_client none connected_client
      (more 1 key (0x61 ∷ 0xc3 ∷ [])) pieces connected_client-IsSettled
      (connected_client, inl (refl, refl), inl refl)
      (
        omega arith,
        inl refl,
        (
          omega arith,
          omega arith,
          (
            omega arith,
            omega arith,
            (
              omega arith,
              inl refl,
              (omega arith, (λ text. (omega arith, (0x61 ∷ 0xe9 ∷ [], ground arith, refl)))),
              tt,
            ),
          ),
        ),
      )

abbrev bytes_out : Followed → List ℕ
bytes_out (ok (s, u, r)) = elim s.out_data [ none ↦ [] | some out ↦ out.bytes ]
bytes_out _ = []

-- The pong, and then the text.
stream_is_echoed :
    bytes_out
      (follow ample echo connected_client none (more 1 key (0x61 ∷ 0xc3 ∷ []) ∷ pieces) minus_one)
    ≡ 0x8a ∷ 1 ∷ 7 ∷ 0x81 ∷ 3 ∷ 0x61 ∷ 0xc3 ∷ 0xa9 ∷ []
unfolding follow make_fragment append_frame make_room extended_length read write lws_calloc
    lws_realloc
stream_is_echoed = refl
