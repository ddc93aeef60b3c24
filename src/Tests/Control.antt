-- ===== src/Tests/Control.antt =====
-- Control frames from the peer, at concrete inputs.
use libwebsock.Prelude.{
  ℕ, ◌≤◌, ◌≡◌, refl, inl, inr, true, List, [], ◌∷◌, arith, All, length, ok, signed32,
}
use libwebsock.Utf8.{utf8d, validate_utf8_sequence}
use libwebsock.Utf8.Grammar.{IsByte}
use libwebsock.Utf8.Validity.{IsUtf8, validate_iff}
use libwebsock.Types.{sw_start, Frame}
use libwebsock.Wire.{server_frame}
use libwebsock.Frames.{handle_control_frame}
use libwebsock.Frames.Failing.{failed_with}
use libwebsock.Fragment.Appends.{appended}
use libwebsock.Dispatch.Masking.{Octets}
use libwebsock.DefaultCallbacks.{default_callbacks, default_control_callback, default_handlers}
use libwebsock.DefaultCallbacks.Carried.{demasked, Carries}
use libwebsock.DefaultCallbacks.Closing.{
  IsClose, IsForbidden, at_close, bad_code_refused, bad_reason_refused,
}
use libwebsock.DefaultCallbacks.Pings.{at_frame, ping_answered}
use libwebsock.Tests.Data.{ample, connected_client, header_of, held, carried, can_send}

ping_carried : Carries (held 9 (7 ∷ 8 ∷ [])) (header_of 9 (7 ∷ 8 ∷ [])) (7 ∷ 8 ∷ []) (0 ∷ [])
ping_carried = carried 9 (7 ∷ 8 ∷ []) (omega arith)

ping_answered_example :
    handle_control_frame
      (default_callbacks ample)
      (at_frame connected_client (held 9 (7 ∷ 8 ∷ [])) (held 1 (0x61 ∷ []) ∷ []))
    ≡ ok (
      at_frame
          (appended connected_client (server_frame 0x8a (7 ∷ 8 ∷ [])))
          (record (demasked
            (held 9 (7 ∷ 8 ∷ []))
            (header_of 9 (7 ∷ 8 ∷ []))
            (7 ∷ 8 ∷ [])
            (0 ∷ [])
            ping_carried) { state = sw_start; rawdata_idx = 0 })
          (held 1 (0x61 ∷ []) ∷ []),
      signed32 4,
    )
ping_answered_example =
    ping_answered ample connected_client (held 9 (7 ∷ 8 ∷ [])) (held 1 (0x61 ∷ []) ∷ [])
      (header_of 9 (7 ∷ 8 ∷ [])) (7 ∷ 8 ∷ []) (0 ∷ []) ping_carried refl (omega arith) refl
      (can_send 2 (omega arith))

-- A close frame with a code and a reason.
abbrev close_of : ℕ → ℕ → List ℕ → Frame
close_of hi lo reason = held 8 (hi ∷ lo ∷ reason)

close_carried :
    (hi lo : ℕ) (reason : List ℕ)
    → Octets (hi ∷ lo ∷ reason)
    → Carries (close_of hi lo reason) (header_of 8 (hi ∷ lo ∷ reason)) (hi ∷ lo ∷ reason) (0 ∷ [])
close_carried hi lo reason octets = carried 8 (hi ∷ lo ∷ reason) octets

is_close :
    (hi lo : ℕ) (reason : List ℕ) (octets : Octets (hi ∷ lo ∷ reason))
    → length reason ≤ 123
    → All IsByte reason
    → IsClose connected_client
        (close_of hi lo reason)
        []
        (header_of 8 (hi ∷ lo ∷ reason))
        reason
        (0 ∷ [])
        hi
        lo
        (close_carried hi lo reason octets)
is_close hi lo reason octets short bytes = record {
  close = refl;
  short = short;
  bytes = bytes;
  first_close = refl;
}

-- 1000 "ok"
abbrev ok_text : List ℕ
ok_text = 0x6f ∷ 0x6b ∷ []

reserved_octets : Octets (3 ∷ 236 ∷ ok_text)
reserved_octets = omega arith

-- 1004 is reserved.
bad_code_refused_example :
    default_control_callback
      (default_handlers ample)
      (at_frame connected_client (close_of 3 236 ok_text) [])
    ≡ failed_with
        (default_handlers ample).onerror
        (at_close connected_client
          (close_of 3 236 ok_text)
          []
          (header_of 8 (3 ∷ 236 ∷ ok_text))
          ok_text
          (0 ∷ [])
          3
          236
          (close_carried 3 236 ok_text reserved_octets))
        1002
bad_code_refused_example =
    bad_code_refused connected_client (close_of 3 236 ok_text) [] (header_of 8 (3 ∷ 236 ∷ ok_text))
      ok_text (0 ∷ []) 3 236 (close_carried 3 236 ok_text reserved_octets) (default_handlers ample)
      (is_close 3 236 ok_text reserved_octets (omega arith) (omega arith)) (inr (inl refl))

abbrev cut_text : List ℕ
cut_text = 0xc3 ∷ []

cut_octets : Octets (3 ∷ 232 ∷ cut_text)
cut_octets = omega arith

cut_text-refused : ¬ IsUtf8 cut_text
unfolding validate_utf8_sequence utf8d
cut_text-refused = (validate_iff cut_text [] (omega arith)).1.0 refl

normal_allowed : ¬ IsForbidden 1000
normal_allowed forbidden = ground arith

bad_reason_refused_example :
    default_control_callback
      (default_handlers ample)
      (at_frame connected_client (close_of 3 232 cut_text) [])
    ≡ failed_with
        (default_handlers ample).onerror
        (record (at_close connected_client
          (close_of 3 232 cut_text)
          []
          (header_of 8 (3 ∷ 232 ∷ cut_text))
          cut_text
          (0 ∷ [])
          3
          232
          (close_carried 3 232 cut_text cut_octets)) {
            flags = record connected_client.flags { should_close = true };
          })
        1002
bad_reason_refused_example =
    bad_reason_refused connected_client (close_of 3 232 cut_text) []
      (header_of 8 (3 ∷ 232 ∷ cut_text)) cut_text (0 ∷ []) 3 232
      (close_carried 3 232 cut_text cut_octets) (default_handlers ample)
      (is_close 3 232 cut_text cut_octets (omega arith) (omega arith)) normal_allowed
      cut_text-refused
