-- ===== src/Tests/Receiving.antt =====
-- Frames from the network, at concrete inputs.
use libwebsock.Prelude.{
  ℕ, ◌≤◌, ◌≡◌, refl, true, false, List, [], ◌∷◌, ◌++◌, arith, length, replicate, ok, fault, ◌>>=◌,
  minus_one, some, get_elem?, bit_or, if◌then◌else◌,
}
use libwebsock.Types.{Frame, zero_frame}
use libwebsock.Wire.{client_frame, length_field, big_endian}
use libwebsock.Utf8.Grammar.{encode_all}
use libwebsock.Header.{grow}
use libwebsock.Header.Feed.{holding}
use libwebsock.Header.Grow.{grow_lem}
use libwebsock.Header.Whole.{Feeds, key_pending, second, header_fed}
use libwebsock.Dispatch.{call_onmessage}
use libwebsock.DefaultCallbacks.Pings.{at_frame}
use libwebsock.Receive.{
  first_frame, frame_fn, frame_lookup_table, receive_loop, handle_recv, set_needs_more,
}
use libwebsock.Receive.Table.{table_class, lookup-class}
use libwebsock.Receive.Frames.{after_frame}
use libwebsock.Receive.Arrival.{CanReceive, Arrived, frame_received, null_entry_called}
use libwebsock.Receive.Messages.{IsIdle, settled, binary_received, text_received}
use libwebsock.Tests.Data.{ample, connected_client, fragment_client, handlers}

idle : IsIdle ample connected_client
idle = record {
  running = refl;
  open_side = refl;
  outside = refl;
  no_frame = refl;
  grants = λ m h. refl;
}

-- "aé", and one byte of the next frame behind it.
text_received_example :
    handle_recv ample handlers connected_client
      (client_frame 0x81 1 2 3 4 (0x61 ∷ 0xc3 ∷ 0xa9 ∷ []) ++ 0x89 ∷ [])
    ≡ (call_onmessage handlers
          (settled connected_client)
          (record { opcode = 1; payload_len = 3; payload = 0x61 ∷ 0xc3 ∷ 0xa9 ∷ [] })
        >>= after_frame ample handlers (0x89 ∷ []))
unfolding encode_all
text_received_example =
    text_received ample handlers connected_client 1 2 3 4 (0x61 ∷ 0xc3 ∷ 0xa9 ∷ []) (0x89 ∷ []) idle
      (omega arith) (omega arith) (omega arith) (0x61 ∷ 0xe9 ∷ [], ground arith, refl)

binary_received_example :
    handle_recv ample handlers connected_client
      (client_frame 0x82 1 2 3 4 (0 ∷ 255 ∷ []) ++ 0x89 ∷ [])
    ≡ (call_onmessage handlers
          (settled connected_client)
          (record { opcode = 2; payload_len = 2; payload = 0 ∷ 255 ∷ [] })
        >>= after_frame ample handlers (0x89 ∷ []))
binary_received_example =
    binary_received ample handlers connected_client 1 2 3 4 (0 ∷ 255 ∷ []) (0x89 ∷ []) idle
      (omega arith) (omega arith) (omega arith)

CanReceive-two : CanReceive ample connected_client first_frame (replicate 1024 0) 2
CanReceive-two = record {
  running = refl;
  start = refl;
  sized = refl;
  room = omega arith;
  small = omega arith;
  grants = λ m h. refl;
}

-- A ping between the fragments of a message.
frame_received_example :
    (g : Frame) × Arrived 0x89 (7 ∷ 8 ∷ []) g
    × (receive_loop ample handlers 0
          (at_frame connected_client
            (holding first_frame [] (replicate 1024 0))
            (zero_frame [] ∷ []))
          (client_frame 0x89 1 2 3 4 (7 ∷ 8 ∷ []) ++ 0x80 ∷ [])
          minus_one
        ≡ (frame_fn ample handlers
              (table_class connected_client.flags.receiving_fragment 0x89)
              (at_frame (set_needs_more false connected_client) g (zero_frame [] ∷ []))
            >>= after_frame ample handlers (0x80 ∷ [])))
frame_received_example =
    frame_received ample handlers connected_client first_frame (zero_frame [] ∷ []) 0x89 1 2 3 4
      (7 ∷ 8 ∷ []) (0x80 ∷ []) minus_one (replicate 1024 0) CanReceive-two (omega arith)
      (omega arith) (omega arith)

null_entry_called_example :
    receive_loop ample handlers 0
      (at_frame fragment_client (holding first_frame [] (replicate 1024 0)) (zero_frame [] ∷ []))
      (client_frame 0xf1 1 2 3 4 (7 ∷ 8 ∷ []) ++ [])
      minus_one
    ≡ fault
null_entry_called_example =
    null_entry_called ample handlers fragment_client first_frame (zero_frame [] ∷ []) 0xf1 1 2 3 4
      (7 ∷ 8 ∷ []) [] minus_one (replicate 1024 0)
      (record {
        running = refl;
        start = refl;
        sized = refl;
        room = omega arith;
        small = omega arith;
        grants = λ m h. refl;
      })
      refl (omega arith) (omega arith) (omega arith) (omega arith)

-- Text in a fragmented message is refused by the table.
lookup-class_example :
    get_elem? frame_lookup_table (bit_or (if true then 256 else 0) 0x81)
    ≡ some (table_class true 0x81)
lookup-class_example = lookup-class true 0x81 (omega arith)

-- A payload of 300 bytes: the length takes two bytes.
header_fed_example :
    Feeds ample
      (holding first_frame [] (replicate 7 0 ++ 9 ∷ 9 ∷ []))
      (0x82 ∷ (length_field 128 300 ++ 1 ∷ 2 ∷ 3 ∷ []))
      (key_pending ample first_frame 0x82 1 2 3 9
        (9 ∷ [])
        refl
        (0x82 ∷ length_field 128 300)
        (second 300)
        300)
unfolding length_field big_endian
header_fed_example =
    header_fed ample first_frame 0x82 1 2 3 9 (9 ∷ []) refl 300 (replicate 7 0) (omega arith) refl

-- A frame of 20 bytes in a block of 16.
abbrev too_small : Frame
too_small = record (zero_frame (replicate 14 1 ++ 2 ∷ 3 ∷ [])) { rawdata_sz = 16; size = 20 }

grow_lem_example :
    (free' : List ℕ) × (sz : ℕ) × (grow ample too_small
      ≡ ok (record too_small { rawdata = replicate 14 1 ++ free'; rawdata_sz = sz }, true))
    × (sz ≡ length (replicate 14 1 ++ free'))
    × (20 ≤ sz)
    × (16 ≤ sz)
grow_lem_example =
    grow_lem ample too_small (replicate 14 1) (2 ∷ 3 ∷ []) refl refl (omega arith) (omega arith)
      (λ m h. refl)
