-- ===== src/Tests/Runs.antt =====
-- Runs of `handle_recv` with the default callbacks.
use libwebsock.Tests.Data.{ample, connected_client}
use libwebsock.Prelude.{ℕ, ◌≡◌, refl, List, [], ◌∷◌, none, some, ok, bit_xor}
use libwebsock.Utf8.{utf8d, validate_utf8_sequence}
use libwebsock.Memory.{byte_at, read, write, lws_calloc, lws_malloc, lws_realloc, c_string}
use libwebsock.Types.{Reply}
use libwebsock.DefaultCallbacks.{
  control_opcode, handle_close, recorded_close_info, check_close_info, acknowledge_close,
  bad_close_code, demask_in_place, default_callbacks, default_control_callback,
  default_onping_callback, default_onclose_callback, default_onerror_callback,
  default_onmessage_callback,
}
use libwebsock.Receive.{
  handle_recv, receive_loop, receive_step, after_loop, store_byte, header_read, copy_payload,
  complete, frame_fn, frame_lookup_table,
}
use libwebsock.Header.{read_header, got_two, got_short_len, got_full_len, grow, round_up, smear}
use libwebsock.Dispatch.{
  dispatch_message, dispatch_frames, check_text, deliver, demask, frame_payload, message_payload,
  message_payload_len, message_opcode,
}
use libwebsock.Frames.{
  handle_control_frame, new_continuation_frame, fail_and_cleanup, error,
  populate_close_info_from_frame,
}
use libwebsock.Api.{make_close_frame, make_close_frame_with_reason, make_pong_frame}
use libwebsock.Fragment.{make_fragment, append_frame, make_room, extended_length}
use libwebsock.ByteOrder.{lws_htobe16}

-- Everything that a run of `handle_recv` computes through.
unfoldable pub whole_receiver : Unit {0}
unfolding handle_recv receive_loop receive_step after_loop store_byte header_read copy_payload
    complete frame_fn frame_lookup_table read_header got_two got_short_len got_full_len grow
    round_up smear byte_at read write lws_calloc lws_malloc lws_realloc c_string dispatch_message
    dispatch_frames check_text deliver demask frame_payload message_payload message_payload_len
    message_opcode handle_control_frame new_continuation_frame fail_and_cleanup error
    populate_close_info_from_frame default_control_callback control_opcode handle_close
    recorded_close_info check_close_info acknowledge_close bad_close_code demask_in_place
    default_onclose_callback default_onping_callback default_onerror_callback
    default_onmessage_callback make_close_frame make_close_frame_with_reason make_pong_frame
    make_fragment append_frame make_room extended_length lws_htobe16 validate_utf8_sequence utf8d
whole_receiver = tt

-- A ping of two bytes, masked by 1 2 3 4.
abbrev ping_frame : List ℕ
ping_frame = 0x89 ∷ 0x82 ∷ 1 ∷ 2 ∷ 3 ∷ 4 ∷ (bit_xor 7 1) ∷ (bit_xor 8 2) ∷ []

abbrev out_bytes : Reply → List ℕ
out_bytes (ok (s, r)) = elim s.out_data [ none ↦ [] | some out ↦ out.bytes ]
out_bytes _ = []

ping_is_answered :
    out_bytes (handle_recv ample (default_callbacks ample) connected_client ping_frame)
    ≡ 0x8a ∷ 2 ∷ 7 ∷ 8 ∷ []
unfolding whole_receiver
ping_is_answered = refl
