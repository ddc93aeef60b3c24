-- ===== src/DefaultCallbacks/Closing.antt =====
-- A close frame from the peer: what is checked, what is recorded, and the answer.
use mathlib.Core.Path.{ap₂}
use libwebsock.Prelude.{
  ℕ, suc, ◌+◌, ◌-◌, ◌*◌, ◌≤◌, ◌<◌, ◌≡◌, ◌⊎◌, refl, ◌∙◌, ap, true, false, not, ◌&&◌, List, [], ◌∷◌,
  ◌++◌, some, none, arith, length, drop, take-length, length-append, replicate, ok, ltb, le→ltb,
  if◌then◌else◌, ◌==◌, All, Bool, ◌↔◌,
}
use libwebsock.Memory.{byte_at, read}
use libwebsock.Memory.Blocks.{byte_at_seam, read_past, write_seam, drop-replicate}
use libwebsock.Types.{
  ClientState, Callbacks, CloseInfo, Frame, ws_opcode_close, ws_close_protocol_error,
}
use libwebsock.Utf8.{validate_utf8_sequence}
use libwebsock.Utf8.Grammar.{IsByte}
use libwebsock.Utf8.Validity.{IsUtf8, validate_iff}
use libwebsock.Frames.{error, fail_and_cleanup, populate_close_info_from_frame}
use libwebsock.Frames.Failing.{failed_with, error-failed_with}
use libwebsock.DefaultCallbacks.{
  default_control_callback, handle_close, recorded_close_info, check_close_info, acknowledge_close,
  bad_close_code,
}
use libwebsock.DefaultCallbacks.Carried.{Carries, demasked, demask_in_place-carried}
use libwebsock.DefaultCallbacks.Steps.{control-control_opcode, control_opcode-close}
use libwebsock.DefaultCallbacks.Pings.{at_frame}

-- The codes of RFC 6455, section 7.4, that no endpoint may send: those that are not used, those that
-- are reserved, and those of the protocol's range that it did not define.
abbrev pub IsForbidden : ℕ → Type 0
IsForbidden code =
    (code < 1000) ⊎ (code ≡ 1004) ⊎ (code ≡ 1005) ⊎ (code ≡ 1006) ⊎ ((1011 < code) × (code < 3000))

bad_close_code-IsForbidden : (code : ℕ) → IsForbidden code → bad_close_code code ≡ true
unfolding bad_close_code
bad_close_code-IsForbidden code forbidden = ground arith

bad_close_code_allowed : (code : ℕ) → ¬ IsForbidden code → bad_close_code code ≡ false
unfolding bad_close_code
bad_close_code_allowed code allowed = ground arith

-- What is recorded of a code and a reason of at most 123 bytes.
abbrev pub recorded : ℕ → List ℕ → CloseInfo
recorded code reason = record {
  code = code;
  reason = reason ++ 0 ∷ replicate (123 - length reason) 0;
}

pub zero_tail : (n : ℕ) → n ≤ 123 → drop {A = ℕ} n (replicate 124 0) ≡ 0 ∷ replicate (123 - n) 0
zero_tail n h =
    let e : 124 - n ≡ suc (123 - n) = omega arith in
    drop-replicate n 124 0 ∙ ap (λ k. replicate k 0) e

populated :
    (g : Frame) (header reason free : List ℕ) (hi lo : ℕ)
    → g.rawdata ≡ header ++ (hi ∷ lo ∷ (reason ++ free))
    → g.payload_offset ≡ length header
    → g.payload_len ≡ 2 + length reason
    → length reason ≤ 123
    → populate_close_info_from_frame none g ≡ ok (some (recorded (hi * 256 + lo) reason))
unfolding populate_close_info_from_frame
populated g header reason free hi lo block offset len short =
    rw (le→ltb g.payload_len 2 (omega arith), first, second, copied)
      (rw (
        write_seam 0 [] (replicate 124 0) reason refl (omega arith),
        zero_tail (length reason) short,
      ))
  where
    body : List ℕ
    body = hi ∷ lo ∷ (reason ++ free)

    first : byte_at g.rawdata g.payload_offset ≡ ok hi
    first =
        ap (λ b. byte_at b g.payload_offset) block
        ∙ byte_at_seam g.payload_offset 0 header body (omega arith)
        ∙ unfold byte_at in refl

    second : byte_at g.rawdata (g.payload_offset + 1) ≡ ok lo
    second =
        ap (λ b. byte_at b (g.payload_offset + 1)) block
        ∙ byte_at_seam (g.payload_offset + 1) 1 header body (omega arith)
        ∙ unfold byte_at in refl

    size : (if ltb 124 (g.payload_len - 2) then 124 else g.payload_len - 2) ≡ length reason
    size = ground arith

    copied :
        read g.rawdata
          (g.payload_offset + 2)
          (if ltb 124 (g.payload_len - 2) then 124 else g.payload_len - 2)
        ≡ ok reason
    copied =
        ap₂ (λ b n. read b (g.payload_offset + 2) n) block size
        ∙ read_past (g.payload_offset + 2) 2 (length reason) header body (omega arith)
            (omega (arith, length-append reason free))
        ∙ ap (λ r. ok r) (take-length reason free)

module _ (cb : Callbacks) (t : ClientState) where
  check_close_info-some :
      (info : CloseInfo)
      → t.close_info ≡ some info
      → (bad_close_code info.code ≡ true
          → check_close_info cb t ≡ error cb t ws_close_protocol_error)
        × (bad_close_code info.code ≡ false
            → validate_utf8_sequence info.reason ≡ ok true
            → check_close_info cb t ≡ acknowledge_close cb t)
        × (bad_close_code info.code ≡ false
            → validate_utf8_sequence info.reason ≡ ok false
            → check_close_info cb t ≡ fail_and_cleanup cb t)
  unfolding check_close_info
  check_close_info-some info e =
      (λ bad. ground arith, λ good valid. ground arith, λ good invalid. ground arith)

  handle_close-recorded :
      (g : Frame) (info : CloseInfo)
      → t.close_info ≡ none
      → 2 ≤ g.payload_len
      → populate_close_info_from_frame none g ≡ ok (some info)
      → handle_close cb t g ≡ check_close_info cb (record t { close_info = some info })
  unfolding handle_close recorded_close_info
  handle_close-recorded g info fresh len info_of = ground arith

-- A close frame that carries a code and a reason of at most 123 bytes, none of them NUL, behind
-- its header.
module _ (s : ClientState) (f : Frame) (earlier : List Frame) (header reason free : List ℕ)
    (hi lo : ℕ) (carries : Carries f header (hi ∷ lo ∷ reason) free) where
  pub record IsClose : Type 0 where
    pub close : f.opcode ≡ ws_opcode_close
    pub short : length reason ≤ 123
    pub bytes : All IsByte reason
    pub first_close : s.close_info ≡ none

  -- The state once the code and the reason are recorded.
  abbrev pub at_close : ClientState
  at_close = record s {
    current_frame = demasked f header (hi ∷ lo ∷ reason) free carries ∷ earlier;
    close_info = some (recorded (hi * 256 + lo) reason);
  }

  control-check_close_info :
      (cb : Callbacks)
      → IsClose
      → default_control_callback cb (at_frame s f earlier) ≡ check_close_info cb at_close
  control-check_close_info cb is =
      control-control_opcode cb (at_frame s f earlier) f g earlier refl
        (closes s.flags.sent_close_frame) (omega (arith, carries.len, is.short))
        (demask_in_place-carried f header (hi ∷ lo ∷ reason) free carries)
      ∙ control_opcode-close cb (at_frame s g earlier) g is.close
      ∙ handle_close-recorded cb (at_frame s g earlier) g (recorded (hi * 256 + lo) reason)
          is.first_close (omega (arith, carries.len))
          (populated g header reason free hi lo refl carries.offset (omega (arith, carries.len))
            is.short)
    where
      g : Frame
      g = demasked f header (hi ∷ lo ∷ reason) free carries

      closes : (b : Bool) → (b && not (f.opcode == ws_opcode_close)) ≡ false
      closes b = ground (arith, is.close)

  -- The three ways in which the check of a close frame ends.
  pub close_checked :
      (cb : Callbacks)
      → IsClose
      → (bad_close_code (hi * 256 + lo) ≡ true
          → default_control_callback cb (at_frame s f earlier)
            ≡ error cb at_close ws_close_protocol_error)
        × (bad_close_code (hi * 256 + lo) ≡ false
            → ¬ IsUtf8 reason
            → default_control_callback cb (at_frame s f earlier) ≡ fail_and_cleanup cb at_close)
        × (bad_close_code (hi * 256 + lo) ≡ false
            → IsUtf8 reason
            → default_control_callback cb (at_frame s f earlier) ≡ acknowledge_close cb at_close)
  close_checked cb is = (
    λ bad. reach ∙ checks.0 bad,
    λ good invalid. reach ∙ checks.2 good (valid.1.1 invalid),
    λ good utf8. reach ∙ checks.1 good (valid.0.1 utf8),
  )
    where
      reach : default_control_callback cb (at_frame s f earlier) ≡ check_close_info cb at_close
      reach = control-check_close_info cb is

      valid :
          ((validate_utf8_sequence (reason ++ 0 ∷ replicate (123 - length reason) 0) ≡ ok true)
            ↔ IsUtf8 reason)
          × ((validate_utf8_sequence (reason ++ 0 ∷ replicate (123 - length reason) 0) ≡ ok false)
              ↔ ¬ IsUtf8 reason)
      valid = validate_iff reason (replicate (123 - length reason) 0) is.bytes

      checks :
          (bad_close_code (hi * 256 + lo) ≡ true
            → check_close_info cb at_close ≡ error cb at_close ws_close_protocol_error)
          × (bad_close_code (hi * 256 + lo) ≡ false
              → validate_utf8_sequence (recorded (hi * 256 + lo) reason).reason ≡ ok true
              → check_close_info cb at_close ≡ acknowledge_close cb at_close)
          × (bad_close_code (hi * 256 + lo) ≡ false
              → validate_utf8_sequence (recorded (hi * 256 + lo) reason).reason ≡ ok false
              → check_close_info cb at_close ≡ fail_and_cleanup cb at_close)
      checks = check_close_info-some cb at_close (recorded (hi * 256 + lo) reason) refl

  -- The peer's first close frame, with a reason of at most 123 bytes without NUL and a code below
  -- 1000, 1004, 1005, 1006 or between 1012 and 2999: code and reason are recorded, and the
  -- connection fails with 1002, that is, the error is recorded, `onerror`, if there is one, is
  -- called with 1002, and then the frames are gone.
  pub bad_code_refused :
      (cb : Callbacks)
      → IsClose
      → IsForbidden (hi * 256 + lo)
      → default_control_callback cb (at_frame s f earlier) ≡ failed_with cb.onerror at_close 1002
  bad_code_refused cb is forbidden =
      (close_checked cb is).0 (bad_close_code-IsForbidden (hi * 256 + lo) forbidden)
      ∙ error-failed_with cb at_close ws_close_protocol_error

  -- The peer's first close frame, with any other code and a reason of at most 123 bytes without NUL
  -- that is not UTF-8: code and reason are recorded, and the connection fails with 1002 as it does
  -- for a forbidden code, and is to be closed (SHOULD_CLOSE).
  pub bad_reason_refused :
      (cb : Callbacks)
      → IsClose
      → ¬ IsForbidden (hi * 256 + lo)
      → ¬ IsUtf8 reason
      → default_control_callback cb (at_frame s f earlier)
        ≡ failed_with cb.onerror
            (record at_close { flags = record s.flags { should_close = true } })
            1002
  unfolding fail_and_cleanup
  bad_reason_refused cb is allowed invalid =
      (close_checked cb is).1 (bad_close_code_allowed (hi * 256 + lo) allowed) invalid
      ∙ error-failed_with cb (record at_close { flags = record s.flags { should_close = true } })
          ws_close_protocol_error
