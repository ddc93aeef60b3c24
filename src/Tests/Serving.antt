-- ===== src/Tests/Serving.antt =====
-- A connection to the server of examples/autobahn-echo.c, at concrete inputs.
use libwebsock.Prelude.{
  ℕ, zero, suc, ◌≡◌, refl, [], ◌∷◌, arith, inl, inr, map, length, replicate, ok, fault, pos,
}
use libwebsock.CStrings.{strstr, tokens, segments, nonempty}
use libwebsock.Utf8.Grammar.{encode_all}
use libwebsock.Wire.{client_frame, length_field, masked}
use libwebsock.Handshake.{max_sub_protocols}
use libwebsock.Handshake.Strings.{Contains}
use libwebsock.Handshake.Request.{IsRequest}
use libwebsock.Handshake.Answer.{answer_text}
use libwebsock.Client.{client_init}
use libwebsock.AutobahnEcho.{read_from_client, do_processing}
use libwebsock.AutobahnEcho.Echoes.{Sent, frame_sent, frame_back}
use libwebsock.AutobahnEcho.Sessions.{session_echoed, full_read-fault}
use libwebsock.Tests.Data.{ample}
use libwebsock.Tests.Handshaking.{checksum, request, letters}

whole_request-IsRequest :
    IsRequest ample (λ n some_byte h. refl) request (length request) (97 ∷ 98 ∷ 99 ∷ [])
unfolding strstr tokens segments nonempty
whole_request-IsRequest = record {
  positive = omega arith;
  ends = refl;
  small = omega arith;
  before = (71 ∷ 69 ∷ 84 ∷ 32 ∷ 47 ∷ []) ∷ [];
  after = [];
  lines = refl;
  plain = ((refl, refl), tt);
  plain_after = tt;
}

-- "é", and two bytes.
abbrev first_sent : Sent
first_sent = record {
  opcode = 1;
  key = record { k0 = 1; k1 = 2; k2 = 3; k3 = 4 };
  payload = 0xc3 ∷ 0xa9 ∷ [];
}

abbrev second_sent : Sent
second_sent = record {
  opcode = 2;
  key = record { k0 = 9; k1 = 9; k2 = 9; k3 = 9 };
  payload = 0 ∷ 255 ∷ [];
}

session_echoed_example :
    do_processing ample
      (pos 0)
      checksum
      (request ∷ map frame_sent (first_sent ∷ second_sent ∷ []))
      (pos 1 ∷ pos 4 ∷ pos 4 ∷ [])
    ≡ ok (
        answer_text ample
          (λ n some_byte few. refl)
          checksum
          (97 ∷ 98 ∷ 99 ∷ [])
          (omega arith)
          (omega arith)
          []
          (replicate max_sub_protocols [])
          (omega arith)
          tt
        ∷ map frame_back (first_sent ∷ second_sent ∷ []))
unfolding encode_all client_frame length_field masked
session_echoed_example =
    session_echoed ample (λ n few. refl) (pos 0) refl checksum (97 ∷ 98 ∷ 99 ∷ []) (omega arith)
      (omega arith) request (first_sent ∷ second_sent ∷ []) 0 (pos 4 ∷ pos 4 ∷ []) (omega arith)
      (omega arith) whole_request-IsRequest
      (
        (
          omega arith,
          inl refl,
          (omega arith, (λ text. (omega arith, (0xe9 ∷ [], ground arith, refl)))),
          omega arith,
        ),
        ((omega arith, inr refl, (omega arith, (λ text. absurd (omega arith))), omega arith), tt),
      )
      (refl, (refl, tt))

-- The letter "a" only.
no_end : (n : ℕ) → ¬ Contains (13 ∷ 10 ∷ 13 ∷ 10 ∷ []) (replicate n 97)
no_end zero ([], back, cut) = absurd (ground arith)
no_end zero (b ∷ front, back, cut) = absurd (ground arith)
no_end (suc n) ([], back, cut) = absurd (ground arith)
no_end (suc n) (b ∷ front, back, cut) = no_end n (front, back, ground arith)

full_read-fault_example :
    read_from_client ample
      (pos 0)
      checksum
      (104 ∷ [])
      []
      (replicate 4096 97)
      (record { results = []; given = [] })
      client_init
    ≡ fault
unfolding client_init
full_read-fault_example =
    full_read-fault ample (pos 0) checksum (104 ∷ []) [] (replicate 4096 97)
      (record { results = []; given = [] }) client_init refl refl (letters 4096) (no_end 4096)
