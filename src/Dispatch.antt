-- ===== src/Dispatch.antt =====
-- src/websock.c, `libwebsock_dispatch_message`: the payload of a chain of frames, demasked.
-- `size_t` has 64 bits here, and so has the `unsigned long long` of the payload lengths.
pub mod Masking
pub mod Messages
use libwebsock.Prelude.{
  ℕ, ◌+◌, ◌%◌, ◌^◌, true, false, List, [], ◌∷◌, ◌++◌, none, some, bit_xor, Outcome, ok, fault, leb,
  ◌==◌, if◌then◌else◌, get_or, length, minus_one, ℤ, pos, ◌>>=◌, ◌>>◌,
}
use libwebsock.Utf8.{validate_utf8_sequence}
use libwebsock.Memory.{Allocator, read, lws_malloc, lws_calloc}
use libwebsock.Types.{
  ClientState, Callbacks, Frame, Message, Reply, ws_opcode_text, ws_close_wrong_type,
}
use libwebsock.Frames.{error, no_frames}

-- `*rawdata_ptr++ ^ mask[i & 3]` from index `i` on.
unfoldable pub demask : List ℕ → ℕ → List ℕ → List ℕ
demask mask i [] = []
demask mask i (b ∷ bs) = bit_xor b (get_or mask (i % 4) 0) ∷ demask mask (i + 1) bs

unfoldable pub frame_payload : Frame → Outcome (List ℕ)
frame_payload f =
    read f.rawdata f.payload_offset f.payload_len >>= (λ bytes. ok (demask f.mask 0 bytes))

-- The loop from the first frame to the current one, which heads the chain.
unfoldable pub message_payload : List Frame → Outcome (List ℕ)
message_payload [] = ok []
message_payload (f ∷ earlier) = do
  front ← message_payload earlier
  own ← frame_payload f
  ok (front ++ own)

-- The loop back over `prev_frame`; the sum is an `unsigned long long`.
unfoldable pub message_payload_len : List Frame → ℕ
message_payload_len [] = 0
message_payload_len (f ∷ earlier) = (f.payload_len + message_payload_len earlier) % 2 ^ 64

-- The opcode of the first frame.
unfoldable pub message_opcode : List Frame → ℕ
message_opcode [] = 0
message_opcode (f ∷ []) = f.opcode
message_opcode (f ∷ g ∷ earlier) = message_opcode (g ∷ earlier)

abbrev pub end_fragment : ClientState → ClientState
end_fragment s = record s { flags = record s.flags { receiving_fragment = false } }

-- `if (state->onmessage) retval = state->onmessage(state, msg)`
abbrev pub call_onmessage : Callbacks → ClientState → Message → Reply
call_onmessage cb s msg = elim cb.onmessage [
  | none ↦ ok (s, pos 0)
  | some onmessage ↦ onmessage s msg
]

module _ (mem : Allocator) (cb : Callbacks) where
  -- The frames are freed, and the message is copied and handed over.
  unfoldable pub deliver : ClientState → ℕ → List ℕ → Reply
  deliver s opcode payload = do
    copy ← lws_calloc mem ((length payload + 1) % 2 ^ 64)
    call_onmessage cb (no_frames s)
        (record { opcode = opcode; payload_len = length payload; payload = payload })

  -- A text message must be valid UTF-8; the check stops at the first NUL.
  unfoldable pub check_text : ClientState → ℕ → List ℕ → Reply
  check_text s opcode payload =
      if opcode == ws_opcode_text
      then validate_utf8_sequence (payload ++ 0 ∷ [])
        >>= (λ valid. if valid then deliver s opcode payload else error cb s ws_close_wrong_type)
      else deliver s opcode payload

  -- The chain is not empty. The bytes written must fit the block of `message_payload_len + 1`.
  unfoldable pub dispatch_frames : ClientState → Reply
  dispatch_frames s = do
    block ← lws_malloc mem ((message_payload_len s.current_frame + 1) % 2 ^ 64)
    payload ← message_payload s.current_frame
    (if leb (length payload) (message_payload_len s.current_frame)
        then check_text s (message_opcode s.current_frame) payload
        else fault)

  unfoldable pub dispatch_message : ClientState → Reply
  dispatch_message s =
      if s.flags.sent_close_frame then ok (end_fragment s, pos 0) else (elim s.current_frame [
        | [] ↦ ok (end_fragment s, minus_one)
        | current ∷ earlier ↦ dispatch_frames (end_fragment s)
      ])
