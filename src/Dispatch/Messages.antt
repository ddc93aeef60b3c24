-- ===== src/Dispatch/Messages.antt =====
-- What `libwebsock_dispatch_message` hands over for a chain of frames.
use libwebsock.Prelude.{
  ℕ, ◌+◌, ◌%◌, ◌^◌, ◌<◌, ◌≡◌, ◌≢◌, refl, ◌∙◌, ap, sym, true, false, List, [], ◌∷◌, ◌++◌, arith, All,
  length, length-append, append_assoc, le→leb, ok,
}
use libwebsock.Utf8.{validate_utf8_sequence}
use libwebsock.Utf8.Grammar.{IsByte}
use libwebsock.Utf8.Validity.{IsUtf8, validate_iff}
use libwebsock.Memory.{Allocator, lws_malloc, lws_calloc}
use libwebsock.Types.{ClientState, Callbacks, Frame, Message, ws_opcode_text, ws_close_wrong_type}
use libwebsock.Frames.{no_frames}
use libwebsock.Frames.Failing.{failed_with, error-failed_with}
use libwebsock.Dispatch.{
  frame_payload, message_payload, message_payload_len, message_opcode, dispatch_frames, check_text,
  deliver, end_fragment, call_onmessage, dispatch_message,
}

-- Each frame of a chain holds a payload, the current frame's first.
abbrev pub Holds : List Frame → List (List ℕ) → Type 0
Holds [] [] = Unit {0}
Holds [] (p ∷ ps) = ⊥
Holds (f ∷ earlier) [] = ⊥
Holds (f ∷ earlier) (p ∷ ps) =
    (frame_payload f ≡ ok p) × (f.payload_len ≡ length p) × Holds earlier ps

-- The payloads in the order of their arrival.
abbrev pub joined : List (List ℕ) → List ℕ
joined [] = []
joined (p ∷ ps) = joined ps ++ p

message_payload-joined :
    (chain : List Frame) (ps : List (List ℕ))
    → Holds chain ps
    → message_payload chain ≡ ok (joined ps)
unfolding message_payload
message_payload-joined [] [] h = refl
message_payload-joined [] (p ∷ ps) h = absurd h
message_payload-joined (f ∷ earlier) [] h = absurd h
message_payload-joined (f ∷ earlier) (p ∷ ps) h = rw (message_payload-joined earlier ps h.2, h.0)

message_payload_len-joined :
    (chain : List Frame) (ps : List (List ℕ))
    → Holds chain ps
    → length (joined ps) < 2 ^ 64
    → message_payload_len chain ≡ length (joined ps)
unfolding message_payload_len
message_payload_len-joined [] [] h k = refl
message_payload_len-joined [] (p ∷ ps) h k = absurd h
message_payload_len-joined (f ∷ earlier) [] h k = absurd h
message_payload_len-joined (f ∷ earlier) (p ∷ ps) h k =
    let sum = length-append (joined ps) p in
    omega (arith, h.1, sum, message_payload_len-joined earlier ps h.2 (omega (arith, sum)))

dispatch-nonempty :
    (mem : Allocator) (cb : Callbacks) (s : ClientState)
    → s.current_frame ≢ []
    → s.flags.sent_close_frame ≡ false
    → dispatch_message mem cb s ≡ dispatch_frames mem cb (end_fragment s)
unfolding dispatch_message
dispatch-nonempty mem cb s nonempty open_side = ground arith

module _ (mem : Allocator) (cb : Callbacks) (s : ClientState) (ps : List (List ℕ)) where
  -- The chain is not empty, nothing has been closed, and the message fits the memory.
  pub record CanDispatch : Type 0 where
    pub open_side : s.flags.sent_close_frame ≡ false
    pub holds : Holds s.current_frame ps
    pub some_frame : s.current_frame ≢ []
    pub below : length (joined ps) + 1 < 2 ^ 64
    pub granted : mem.fits (length (joined ps) + 1) ≡ true

  -- The message that the chain carries.
  abbrev pub whole_message : Message
  whole_message = record {
    opcode = message_opcode s.current_frame;
    payload_len = length (joined ps);
    payload = joined ps;
  }

  pub dispatch-check_text :
      CanDispatch
      → dispatch_message mem cb s
        ≡ check_text mem cb (end_fragment s) (message_opcode s.current_frame) (joined ps)
  unfolding dispatch_frames lws_malloc
  dispatch-check_text can =
      let e : (message_payload_len s.current_frame + 1) % 2 ^ 64 ≡ length (joined ps) + 1 =
        omega (arith, message_payload_len-joined s.current_frame ps can.holds, can.below) in
      dispatch-nonempty mem cb s can.some_frame can.open_side
      ∙ rw (
        e,
        can.granted,
        message_payload-joined s.current_frame ps can.holds,
        message_payload_len-joined s.current_frame ps can.holds (omega (arith, can.below)),
        le→leb (length (joined ps)) (length (joined ps)) (omega arith),
      )

  pub deliver-onmessage :
      CanDispatch
      → (opcode : ℕ)
      → deliver mem cb (end_fragment s) opcode (joined ps)
        ≡ call_onmessage cb
            (no_frames (end_fragment s))
            (record { opcode = opcode; payload_len = length (joined ps); payload = joined ps })
  unfolding deliver lws_calloc
  deliver-onmessage can opcode =
      let e : (length (joined ps) + 1) % 2 ^ 64 ≡ length (joined ps) + 1 =
        omega (arith, can.below) in
      rw (e, can.granted)

-- A message that is not text is handed over.
pub dispatch_other :
    (mem : Allocator) (cb : Callbacks) (s : ClientState) (ps : List (List ℕ))
    → CanDispatch mem cb s ps
    → message_opcode s.current_frame ≢ ws_opcode_text
    → dispatch_message mem cb s
      ≡ call_onmessage cb (no_frames (end_fragment s)) (whole_message mem cb s ps)
unfolding check_text
dispatch_other mem cb s ps can binary =
    rw (dispatch-check_text mem cb s ps can)
      (ground (arith, deliver-onmessage mem cb s ps can (message_opcode s.current_frame)))

-- The current frame heads the chain, so its last element is the first frame.
message_opcode_first :
    (newer : List Frame) (first : Frame) → message_opcode (newer ++ first ∷ []) ≡ first.opcode
unfolding message_opcode
message_opcode_first [] first = refl
message_opcode_first (f ∷ []) first = refl
message_opcode_first (f ∷ g ∷ newer) first = message_opcode_first (g ∷ newer) first

-- With the bytes of a chain's frames at hand, nothing closed and memory granted, a message whose
-- first frame is not text reaches `onmessage` with that frame's opcode and the demasked payloads of
-- all frames in the order of their arrival, with the frames gone and RECEIVING_FRAGMENT cleared.
pub dispatch_binary :
    (mem : Allocator) (cb : Callbacks) (s : ClientState) (ps : List (List ℕ)) (newer : List Frame)
    (first : Frame)
    → s.current_frame ≡ newer ++ first ∷ []
    → CanDispatch mem cb s ps
    → first.opcode ≢ 1
    → dispatch_message mem cb s
      ≡ call_onmessage cb
          (record s { flags = record s.flags { receiving_fragment = false }; current_frame = [] })
          (record { opcode = first.opcode; payload_len = length (joined ps); payload = joined ps })
dispatch_binary mem cb s ps newer first chain can binary =
    let opcode : message_opcode s.current_frame ≡ first.opcode =
      ap message_opcode chain ∙ message_opcode_first newer first in
    dispatch_other mem cb s ps can (λ text. binary (sym opcode ∙ text))
    ∙ ap
        (λ n.
          call_onmessage cb (no_frames (end_fragment s))
            (record { opcode = n; payload_len = length (joined ps); payload = joined ps }))
        opcode

-- With nothing closed and memory granted, a text message of bytes other than NUL that is UTF-8 as
-- a whole, wherever the frames cut it, reaches `onmessage` whole, as a binary one would.
pub dispatch_text :
    (mem : Allocator) (cb : Callbacks) (s : ClientState) (ps : List (List ℕ))
    → CanDispatch mem cb s ps
    → message_opcode s.current_frame ≡ ws_opcode_text
    → All IsByte (joined ps)
    → IsUtf8 (joined ps)
    → dispatch_message mem cb s
      ≡ call_onmessage cb (no_frames (end_fragment s)) (whole_message mem cb s ps)
unfolding check_text
dispatch_text mem cb s ps can text bytes valid =
    rw (dispatch-check_text mem cb s ps can, text, (validate_iff (joined ps) [] bytes).0.1 valid)
      (deliver-onmessage mem cb s ps can ws_opcode_text)

-- With nothing closed and memory granted, a text message of bytes other than NUL that is not
-- UTF-8 as a whole is failed with 1007: RECEIVING_FRAGMENT is cleared and the error recorded,
-- `onerror`, if there is one, is called with the code, and then the frames are gone. `onmessage` is
-- not called.
pub dispatch_bad_text :
    (mem : Allocator) (cb : Callbacks) (s : ClientState) (ps : List (List ℕ))
    → CanDispatch mem cb s ps
    → message_opcode s.current_frame ≡ ws_opcode_text
    → All IsByte (joined ps)
    → ¬ IsUtf8 (joined ps)
    → dispatch_message mem cb s
      ≡ failed_with cb.onerror
          (record s { flags = record s.flags { receiving_fragment = false } })
          1007
unfolding check_text
dispatch_bad_text mem cb s ps can text bytes invalid =
    rw (dispatch-check_text mem cb s ps can, text, (validate_iff (joined ps) [] bytes).1.1 invalid)
      (error-failed_with cb (end_fragment s) ws_close_wrong_type)

-- With nothing closed and memory granted, a text message that is UTF-8 up to its first NUL reaches
-- `onmessage` whole, whatever bytes follow the NUL.
pub dispatch_text_after_nul :
    (mem : Allocator) (cb : Callbacks) (s : ClientState) (ps : List (List ℕ)) (front back : List ℕ)
    → CanDispatch mem cb s ps
    → message_opcode s.current_frame ≡ ws_opcode_text
    → joined ps ≡ front ++ 0 ∷ back
    → All IsByte front
    → IsUtf8 front
    → dispatch_message mem cb s
      ≡ call_onmessage cb (no_frames (end_fragment s)) (whole_message mem cb s ps)
unfolding check_text
dispatch_text_after_nul mem cb s ps front back can text cut bytes valid =
    rw (dispatch-check_text mem cb s ps can, text, checked)
      (deliver-onmessage mem cb s ps can ws_opcode_text)
  where
    checked : validate_utf8_sequence (joined ps ++ 0 ∷ []) ≡ ok true
    checked =
        rw (cut, append_assoc front (0 ∷ back) (0 ∷ []))
          ((validate_iff front (back ++ 0 ∷ []) bytes).0.1 valid)
