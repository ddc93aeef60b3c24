-- ===== src/Tests/Dispatching.antt =====
-- Messages from chains of frames, at concrete inputs.
use libwebsock.Prelude.{ℕ, ◌≤◌, ◌<◌, All, ◌≡◌, refl, List, [], ◌∷◌, ◌++◌, arith, length}
use libwebsock.Utf8.{utf8d, validate_utf8_sequence}
use libwebsock.Utf8.Grammar.{encode_all}
use libwebsock.Utf8.Validity.{IsUtf8, validate_iff}
use libwebsock.Types.{ClientState}
use libwebsock.Frames.{no_frames}
use libwebsock.Frames.Failing.{failed_with}
use libwebsock.Dispatch.{message_opcode, call_onmessage, dispatch_message, end_fragment}
use libwebsock.Dispatch.Messages.{
  CanDispatch, dispatch_binary, dispatch_text, dispatch_bad_text, dispatch_text_after_nul,
  whole_message,
}
use libwebsock.DefaultCallbacks.Carried.{frame_payload-carried}
use libwebsock.Tests.Data.{ample, connected_client, handlers, header_of, held, carried}

-- A message in two frames, the second frame first.
abbrev two_frames : ℕ → List ℕ → List ℕ → ClientState
two_frames opcode front back = record connected_client {
  current_frame = held 0 back ∷ held opcode front ∷ [];
}

can_dispatch :
    (opcode : ℕ) (front back : List ℕ)
    → All (λ b. b < 256) front
    → All (λ b. b < 256) back
    → length (front ++ back) ≤ 0xffff
    → CanDispatch ample handlers (two_frames opcode front back) (back ∷ front ∷ [])
can_dispatch opcode front back f b short = record {
  open_side = refl;
  holds = (
    frame_payload-carried (held 0 back) (header_of 0 back) back (0 ∷ []) (carried 0 back b),
    refl,
    (
      frame_payload-carried (held opcode front) (header_of opcode front) front (0 ∷ [])
          (carried opcode front f),
      refl,
      tt,
    ),
  );
  some_frame = λ e. cc;
  below = omega arith;
  granted = refl;
}

-- "hé" with the é cut in two by the frames.
dispatch_text_example :
    dispatch_message ample handlers (two_frames 1 (0x68 ∷ 0xc3 ∷ []) (0xa9 ∷ []))
    ≡ call_onmessage handlers
        (no_frames (end_fragment (two_frames 1 (0x68 ∷ 0xc3 ∷ []) (0xa9 ∷ []))))
        (whole_message ample handlers
          (two_frames 1 (0x68 ∷ 0xc3 ∷ []) (0xa9 ∷ []))
          ((0xa9 ∷ []) ∷ (0x68 ∷ 0xc3 ∷ []) ∷ []))
unfolding message_opcode encode_all
dispatch_text_example =
    dispatch_text ample handlers (two_frames 1 (0x68 ∷ 0xc3 ∷ []) (0xa9 ∷ []))
      ((0xa9 ∷ []) ∷ (0x68 ∷ 0xc3 ∷ []) ∷ [])
      (can_dispatch 1 (0x68 ∷ 0xc3 ∷ []) (0xa9 ∷ []) (omega arith) (omega arith) (omega arith)) refl
      (omega arith) (0x68 ∷ 0xe9 ∷ [], ground arith, refl)

-- A surrogate, cut by the frames.
surrogate_refused : ¬ IsUtf8 (0xed ∷ 0xa0 ∷ 0x80 ∷ [])
unfolding validate_utf8_sequence utf8d
surrogate_refused = (validate_iff (0xed ∷ 0xa0 ∷ 0x80 ∷ []) [] (omega arith)).1.0 refl

dispatch_bad_text_example :
    dispatch_message ample handlers (two_frames 1 (0xed ∷ []) (0xa0 ∷ 0x80 ∷ []))
    ≡ failed_with handlers.onerror (end_fragment (two_frames 1 (0xed ∷ []) (0xa0 ∷ 0x80 ∷ []))) 1007
unfolding message_opcode
dispatch_bad_text_example =
    dispatch_bad_text ample handlers (two_frames 1 (0xed ∷ []) (0xa0 ∷ 0x80 ∷ []))
      ((0xa0 ∷ 0x80 ∷ []) ∷ (0xed ∷ []) ∷ [])
      (can_dispatch 1 (0xed ∷ []) (0xa0 ∷ 0x80 ∷ []) (omega arith) (omega arith) (omega arith)) refl
      (omega arith) surrogate_refused

dispatch_binary_example :
    dispatch_message ample handlers (two_frames 2 (1 ∷ 2 ∷ []) (255 ∷ []))
    ≡ call_onmessage handlers
        (no_frames (end_fragment (two_frames 2 (1 ∷ 2 ∷ []) (255 ∷ []))))
        (record { opcode = 2; payload_len = 3; payload = 1 ∷ 2 ∷ 255 ∷ [] })
dispatch_binary_example =
    dispatch_binary ample handlers (two_frames 2 (1 ∷ 2 ∷ []) (255 ∷ []))
      ((255 ∷ []) ∷ (1 ∷ 2 ∷ []) ∷ []) (held 0 (255 ∷ []) ∷ []) (held 2 (1 ∷ 2 ∷ [])) refl
      (can_dispatch 2 (1 ∷ 2 ∷ []) (255 ∷ []) (omega arith) (omega arith) (omega arith))
      (λ e. absurd (omega arith))

-- "h", a NUL, and a byte that is never UTF-8.
dispatch_text_after_nul_example :
    dispatch_message ample handlers (two_frames 1 (0x68 ∷ []) (0 ∷ 0xff ∷ []))
    ≡ call_onmessage handlers
        (no_frames (end_fragment (two_frames 1 (0x68 ∷ []) (0 ∷ 0xff ∷ []))))
        (whole_message ample handlers
          (two_frames 1 (0x68 ∷ []) (0 ∷ 0xff ∷ []))
          ((0 ∷ 0xff ∷ []) ∷ (0x68 ∷ []) ∷ []))
unfolding message_opcode encode_all
dispatch_text_after_nul_example =
    dispatch_text_after_nul ample handlers (two_frames 1 (0x68 ∷ []) (0 ∷ 0xff ∷ []))
      ((0 ∷ 0xff ∷ []) ∷ (0x68 ∷ []) ∷ []) (0x68 ∷ []) (0xff ∷ [])
      (can_dispatch 1 (0x68 ∷ []) (0 ∷ 0xff ∷ []) (omega arith) (omega arith) (omega arith)) refl
      refl (omega arith) (0x68 ∷ [], ground arith, refl)
