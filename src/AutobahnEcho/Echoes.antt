-- ===== src/AutobahnEcho/Echoes.antt =====
-- A message that arrives in whole is echoed by the callback of examples/autobahn-echo.c.
use libwebsock.Prelude.{
  ℕ, ◌+◌, ◌^◌, ◌≤◌, ◌≡◌, inl, inr, refl, ◌∙◌, ap, true, false, List, [], append-nil, arith, none,
  length, bit_and, ok, ◌>>=◌, ℤ, is_minus_one, signed32,
}
use libwebsock.Memory.{Allocator}
use libwebsock.Memory.Blocks.{take_all}
use libwebsock.Types.{ClientState, Reply, no_flags}
use libwebsock.Wire.{client_frame, server_frame}
use libwebsock.Fragment.{make_fragment}
use libwebsock.Fragment.Appends.{CanSend, appended, header_size, make_fragment_frame}
use libwebsock.Api.{make_text_data_frame_with_length, make_binary_data_frame}
use libwebsock.Receive.{handle_recv, receive_loop, after_loop}
use libwebsock.Receive.Frames.{after_frame}
use libwebsock.Receive.Messages.{IsIdle, text_received, binary_received}
use libwebsock.Stream.{Key, FrameFits, IsData, MessageFits}
use libwebsock.AutobahnEcho.{made_reply, maxmsg, onmessage_callback, echo_callbacks}

-- A message of a client, in one frame.
pub record Sent : Type 0 where
  pub opcode : ℕ
  pub key : Key
  pub payload : List ℕ

abbrev pub frame_sent : Sent → List ℕ
frame_sent m = client_frame (0x80 + m.opcode) m.key.k0 m.key.k1 m.key.k2 m.key.k3 m.payload

abbrev pub frame_back : Sent → List ℕ
frame_back m = server_frame (0x80 + m.opcode) m.payload

-- Text or binary, in a frame that one `read` takes.
abbrev pub CanServe : Sent → Type 0
CanServe m =
    FrameFits m.key m.payload
    × IsData m.opcode
    × MessageFits m.opcode m.payload
    × (length (frame_sent m) ≤ maxmsg)

-- The client between two messages.
abbrev pub open_client : ClientState
open_client = record {
  flags = record no_flags { connected = true };
  out_data = none;
  current_frame = [];
  close_info = none;
}

-- What `onmessage` makes of a message: its frame.
abbrev pub answered : Sent → ClientState
answered m = appended open_client (frame_back m)

module _ (mem : Allocator) (grants : (n : ℕ) → n ≤ 2 ^ 30 → mem.fits n ≡ true) (left : ℤ)
    (goes_on : is_minus_one left ≡ false) where
  can_send : (n : ℕ) → 14 + n ≤ 2 ^ 30 → CanSend mem open_client n
  can_send n small = record {
    is_connected = refl;
    is_open = refl;
    supported = omega arith;
    sized = refl;
    below = ground arith;
    granted = grants (0 + (header_size n + n)) (ground arith);
  }

  frame_made :
      (payload : List ℕ) (first : ℕ)
      → 14 + length payload ≤ 2 ^ 30
      → (make_fragment mem open_client payload (length payload) first >>= made_reply left)
        ≡ ok (appended open_client (server_frame (bit_and first 0xff) payload), left)
  frame_made payload first small =
      let size : is_minus_one (signed32 (header_size (length payload) + length payload)) ≡ false =
        ground arith in
      rw
        (
          make_fragment_frame mem open_client payload (length payload) first
              (can_send (length payload) small) (omega arith),
          size,
          take_all (length payload) payload (omega arith),
        )
        refl

  echoed_text :
      (payload : List ℕ)
      → 14 + length payload ≤ 2 ^ 30
      → onmessage_callback mem left open_client
          (record { opcode = 1; payload_len = length payload; payload = payload })
        ≡ ok (appended open_client (server_frame 0x81 payload), left)
  unfolding onmessage_callback make_text_data_frame_with_length
  echoed_text payload small = frame_made payload 0x81 small

  echoed_binary :
      (payload : List ℕ)
      → 14 + length payload ≤ 2 ^ 30
      → onmessage_callback mem left open_client
          (record { opcode = 2; payload_len = length payload; payload = payload })
        ≡ ok (appended open_client (server_frame 0x82 payload), left)
  unfolding onmessage_callback make_binary_data_frame
  echoed_binary payload small = frame_made payload 0x82 small

  open_client-IsIdle : IsIdle mem open_client
  open_client-IsIdle = record {
    running = refl;
    open_side = refl;
    outside = refl;
    no_frame = refl;
    grants = grants;
  }

  -- What follows a frame at the end of the bytes.
  at_end :
      (bytes : List ℕ)
      → after_frame mem (echo_callbacks mem left) [] (appended open_client bytes, left)
        ≡ ok (appended open_client bytes, left)
  unfolding after_loop receive_loop
  at_end bytes = rw goes_on refl

  pub handled :
      (m : Sent)
      → CanServe m
      → handle_recv mem (echo_callbacks mem left) open_client (frame_sent m) ≡ ok (answered m, left)
  handled m (fits, inl text, message, room) =
      let k = m.key in
      rw (text, ← append-nil (client_frame 0x81 k.k0 k.k1 k.k2 k.k3 m.payload))
        (text_received mem (echo_callbacks mem left) open_client k.k0 k.k1 k.k2 k.k3 m.payload []
            open_client-IsIdle fits.2 fits.0 (message.1 text).0 (message.1 text).1
          ∙ ap (λ (o : Reply). o >>= after_frame mem (echo_callbacks mem left) [])
              (echoed_text m.payload fits.2)
          ∙ at_end (server_frame 0x81 m.payload))
  handled m (fits, inr binary, message, room) =
      let k = m.key in
      rw (binary, ← append-nil (client_frame 0x82 k.k0 k.k1 k.k2 k.k3 m.payload))
        (binary_received mem (echo_callbacks mem left) open_client k.k0 k.k1 k.k2 k.k3 m.payload []
            open_client-IsIdle fits.2 fits.0 fits.1
          ∙ ap (λ (o : Reply). o >>= after_frame mem (echo_callbacks mem left) [])
              (echoed_binary m.payload fits.2)
          ∙ at_end (server_frame 0x82 m.payload))
