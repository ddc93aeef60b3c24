-- ===== src/Api.antt =====
-- src/api.c: the frames that an application asks for.
pub mod Frames
pub mod Parts
use libwebsock.Prelude.{
  ℕ, ◌+◌, ◌-◌, ◌%◌, ◌^◌, true, false, List, [], ◌∷◌, ◌++◌, Option, none, some, Outcome, ok,
  if◌then◌else◌, length, take, replicate, bit_or, minus_one, ◌>>=◌,
}
use libwebsock.ByteOrder.{lws_htobe16, store16}
use libwebsock.Memory.{Allocator, write, c_string}
use libwebsock.Fragment.{make_fragment}
use libwebsock.Types.{
  ClientState, Reply, ws_fragment_fin, ws_opcode_continue, ws_opcode_text, ws_opcode_binary,
  ws_opcode_close, ws_close_normal,
}

abbrev pub with_sent_close : ClientState → ClientState
with_sent_close s = record s { flags = record s.flags { sent_close_frame = true } }

module _ (mem : Allocator) where
  unfoldable pub make_ping_frame : ClientState → Reply
  make_ping_frame s = make_fragment mem s [] 0 0x89

  unfoldable pub make_pong_frame : ClientState → List ℕ → ℕ → Reply
  make_pong_frame s source len = make_fragment mem s source len 0x8a

  -- `char buf[128]` holds the code and, by `snprintf(buf + 2, 124, "%s", reason)`, at most 123
  -- bytes of the reason, but `len` counts all of them.
  unfoldable pub make_close_frame_with_reason : ClientState → ℕ → Option (List ℕ) → Reply
  make_close_frame_with_reason s code reason = do
    text ← elim reason [ none ↦ ok [] | some object ↦ c_string object ]
    with_code ← write (replicate 128 0) 0 (store16 (lws_htobe16 code))
    buf ← elim reason [
      | none ↦ ok with_code
      | some object ↦ write with_code 2 (take 123 text ++ 0 ∷ [])
    ]
    sent ←
        make_fragment mem s buf ((2 + length text) % 2 ^ 32)
          (bit_or ws_fragment_fin ws_opcode_close)
    ok (with_sent_close sent.0, sent.1)

  unfoldable pub make_close_frame : ClientState → Reply
  make_close_frame s = make_close_frame_with_reason s ws_close_normal none

  unfoldable pub make_text_data_frame_with_length : ClientState → List ℕ → ℕ → Reply
  make_text_data_frame_with_length s strdata payload_len =
      if s.flags.continuous_frame_in_progress
      then ok (s, minus_one)
      else make_fragment mem s strdata payload_len (bit_or ws_fragment_fin ws_opcode_text)

  unfoldable pub make_text_data_frame : ClientState → List ℕ → Reply
  make_text_data_frame s strdata = c_string strdata >>= (λ text.
      if s.flags.continuous_frame_in_progress
      then ok (s, minus_one)
      else make_fragment mem s strdata (length text % 2 ^ 32)
          (bit_or ws_fragment_fin ws_opcode_text))

  unfoldable pub make_binary_data_frame : ClientState → List ℕ → ℕ → Reply
  make_binary_data_frame s in_data payload_len =
      if s.flags.continuous_frame_in_progress
      then ok (s, minus_one)
      else make_fragment mem s in_data payload_len (bit_or ws_fragment_fin ws_opcode_binary)

  unfoldable pub make_init_text_continuation_frame_with_length : ClientState → List ℕ → ℕ → Reply
  make_init_text_continuation_frame_with_length s strdata payload_len =
      make_fragment mem
        (record s { flags = record s.flags { continuous_frame_in_progress = true } }) strdata
        payload_len ws_opcode_text

  unfoldable pub make_init_binary_continuation_frame_with_length : ClientState → List ℕ → ℕ → Reply
  make_init_binary_continuation_frame_with_length s in_data payload_len =
      make_fragment mem
        (record s { flags = record s.flags { continuous_frame_in_progress = true } }) in_data
        payload_len ws_opcode_binary

  unfoldable pub make_text_continuation_frame_with_length : ClientState → List ℕ → ℕ → Reply
  make_text_continuation_frame_with_length s strdata payload_len =
      make_fragment mem s strdata payload_len ws_opcode_continue

  unfoldable pub make_binary_continuation_frame_with_length : ClientState → List ℕ → ℕ → Reply
  make_binary_continuation_frame_with_length s in_data payload_len =
      make_fragment mem s in_data payload_len ws_opcode_continue

  unfoldable pub make_end_text_continuation_frame_with_length : ClientState → List ℕ → ℕ → Reply
  make_end_text_continuation_frame_with_length s strdata payload_len =
      make_fragment mem
        (record s { flags = record s.flags { continuous_frame_in_progress = false } }) strdata
        payload_len (bit_or ws_fragment_fin ws_opcode_continue)

  unfoldable pub make_end_binary_continuation_frame_with_length : ClientState → List ℕ → ℕ → Reply
  make_end_binary_continuation_frame_with_length s in_data payload_len =
      make_fragment mem
        (record s { flags = record s.flags { continuous_frame_in_progress = false } }) in_data
        payload_len (bit_or ws_fragment_fin ws_opcode_continue)
