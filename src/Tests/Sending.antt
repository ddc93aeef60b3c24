-- ===== src/Tests/Sending.antt =====
-- Frames to the peer, at concrete inputs.
use libwebsock.Prelude.{
  ◌>>=◌, true, ℕ, ◌+◌, ◌/◌, ◌%◌, ◌≡◌, refl, List, [], ◌∷◌, ◌++◌, arith, length, length-replicate,
  replicate, take, some, ok, signed32, minus_one, bit_and,
}
use libwebsock.ByteOrder.{lws_htobe64, lws_be64toh, store64}
use libwebsock.ByteOrder.Reversal.{be64toh-htobe64}
use libwebsock.Wire.{big_endian, server_frame, read_server_frame}
use libwebsock.Fragment.{make_fragment}
use libwebsock.Fragment.Appends.{appended, header_size, make_fragment-read, IsSized}
use libwebsock.Api.{make_close_frame_with_reason, with_sent_close}
use libwebsock.Api.{make_text_data_frame_with_length, make_binary_data_frame}
use libwebsock.Api.Parts.{HasRoom, Sends, beginning, send_further, parts_sent}
use libwebsock.Api.Frames.{close_frame-sent}
use libwebsock.Tests.Data.{ample, connected_client, can_send}

-- 200 bytes of a longer source, sent as a binary frame.
make_fragment-read_example :
    (frame : List ℕ) × (make_fragment ample connected_client (replicate 300 7) 200 0x82
      ≡ ok (appended connected_client frame, signed32 (header_size 200 + 200)))
    × (length frame ≡ header_size 200 + 200)
    × (read_server_frame (frame ++ 0x89 ∷ [])
        ≡ some (record {
          first = bit_and 0x82 0xff;
          payload = take 200 (replicate 300 7);
          rest = 0x89 ∷ [];
        }))
    × IsSized (appended connected_client frame)
make_fragment-read_example =
    make_fragment-read ample connected_client (replicate 300 7) 200 0x82 (0x89 ∷ [])
      (can_send 200 (omega arith)) (omega (arith, length-replicate {A = ℕ} 300 7))

-- 1000 "ok"
close_frame-sent_example :
    make_close_frame_with_reason ample connected_client 1000 (some ((0x6f ∷ 0x6b ∷ []) ++ 0 ∷ []))
    ≡ ok (
      with_sent_close (
          appended connected_client
            (server_frame 0x88 ((1000 / 256) ∷ (1000 % 256) ∷ 0x6f ∷ 0x6b ∷ []))),
      signed32 6,
    )
close_frame-sent_example =
    close_frame-sent ample connected_client 1000 (0x6f ∷ 0x6b ∷ []) [] (omega arith) (omega arith)
      (omega arith) (can_send 4 (omega arith))

be64toh-htobe64_example :
    (lws_be64toh (lws_htobe64 0x0102030405060708) ≡ 0x0102030405060708)
    × (store64 (lws_htobe64 0x0102030405060708) ≡ big_endian 8 0x0102030405060708)
be64toh-htobe64_example = be64toh-htobe64 0x0102030405060708 (omega arith)

connected_client-HasRoom : HasRoom ample connected_client 36
connected_client-HasRoom = record {
  is_connected = refl;
  is_open = refl;
  sized = refl;
  below = omega arith;
  grants = λ m few. refl;
}

-- Six bytes of text in three parts.
parts_sent_example :
    Sends ample
      (0x89 ∷ [])
      connected_client
      ((0x01, 1 ∷ 2 ∷ 3 ∷ []) ∷ (0x00, 4 ∷ 5 ∷ []) ∷ (0x80, 6 ∷ []) ∷ [])
      (beginning ample true connected_client (1 ∷ 2 ∷ 3 ∷ [])
        >>= (λ begun. send_further ample true begun.0 ((4 ∷ 5 ∷ []) ∷ []) (6 ∷ [])))
    × ((beginning ample true connected_client (1 ∷ 2 ∷ 3 ∷ [])
          >>= (λ begun. make_text_data_frame_with_length ample begun.0 (7 ∷ []) 1))
        ≡ (beginning ample true connected_client (1 ∷ 2 ∷ 3 ∷ [])
            >>= (λ begun. ok (begun.0, minus_one))))
    × ((beginning ample true connected_client (1 ∷ 2 ∷ 3 ∷ [])
          >>= (λ begun. make_binary_data_frame ample begun.0 (7 ∷ []) 1))
        ≡ (beginning ample true connected_client (1 ∷ 2 ∷ 3 ∷ [])
            >>= (λ begun. ok (begun.0, minus_one))))
parts_sent_example =
    parts_sent ample true (0x89 ∷ []) (1 ∷ 2 ∷ 3 ∷ []) ((4 ∷ 5 ∷ []) ∷ []) (6 ∷ []) connected_client
      (7 ∷ []) 1 connected_client-HasRoom
