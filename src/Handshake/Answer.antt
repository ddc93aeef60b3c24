-- ===== src/Handshake/Answer.antt =====
-- The answer to a request with a key.
use mathlib.Core.Path.{subst}
use libwebsock.Prelude.{
  ℕ, ◌+◌, ◌-◌, ◌^◌, ◌≤◌, ◌<◌, ◌≡◌, refl, ◌∙◌, ap, true, List, [], ◌∷◌, ◌++◌, append_assoc,
  append-nil, arith, All, Option, none, some, length, length-append, length-drop, length-replicate,
  drop, take-length, replicate, ok, pos, inl, inr,
}
use libwebsock.Memory.{Allocator, lws_malloc, lws_calloc}
use libwebsock.Memory.Blocks.{write_seam, read_seam, c_string_lem, drop_all}
use libwebsock.Types.{ClientState, no_flags}
use libwebsock.CStrings.{pieces_of}
use libwebsock.Base64.{encode_source, base64_encode}
use libwebsock.Base64.Characters.{encode_source-positive}
use libwebsock.Base64.Target.{length-encode_source, base64_encode-fits}
use libwebsock.Handshake.{
  Digest, Scan, protocol_lines, gid, status_line, upgrade_lines, crlf, digest_bytes, accept_of,
  response, print_at, send_answer, put_response, populate_handshake, get_selected_subprotocol,
  select,
}
use libwebsock.Handshake.Key.{All-positive, print_at_lem, concatenated-short, digest_bytes_lem}
use libwebsock.Handshake.Request.{IsRequest, scan_of, handshake-send_answer}

length-digest_bytes : (d : Digest) → length (digest_bytes d) ≡ 20
length-digest_bytes d = ap length (digest_bytes_lem d)

module _ (mem : Allocator) (grants : (n : ℕ) → 0 < n → n ≤ 2 ^ 30 → mem.fits n ≡ true) where
  module _ (sha1 : List ℕ → Digest) (key : List ℕ) (short : length key ≤ 987)
      (positive : All (λ b. 0 < b) key) where
    -- The value of Sec-WebSocket-Accept in RFC 6455, section 4.2.2.
    abbrev pub accept : List ℕ
    accept = encode_source (digest_bytes (sha1 (key ++ gid)))

    length-accept : length accept ≡ 28
    length-accept = omega (
      arith,
      length-encode_source (digest_bytes (sha1 (key ++ gid))),
      length-digest_bytes (sha1 (key ++ gid)),
    )

    encoded_at :
        (block : List ℕ)
        → length block ≡ 256
        → base64_encode (digest_bytes (sha1 (key ++ gid))) block 256
          ≡ ok ((accept ++ 0 ∷ []) ++ drop (length (accept ++ 0 ∷ [])) block, pos 1)
    encoded_at block size =
        subst
          (λ n.
            base64_encode (digest_bytes (sha1 (key ++ gid))) block n
            ≡ ok ((accept ++ 0 ∷ []) ++ drop (length (accept ++ 0 ∷ [])) block, pos 1))
          size
          (elim (base64_encode-fits (digest_bytes (sha1 (key ++ gid))) block (omega (arith, size))
            (omega (arith, size))) [
              | inl (no_room, refused) ↦ absurd (omega (arith, no_room, size, length-accept))
              | inr (room, done) ↦ done
            ])

    accept_of-key : (rest : List ℕ) → accept_of mem sha1 (key ++ 0 ∷ rest) ≡ ok accept
    unfolding accept_of lws_malloc
    accept_of-key rest =
        rw
          (
            concatenated-short key rest positive short,
            grants 256 (omega arith) (omega arith),
            encoded_at (mem.garbage 256) (mem.length-garbage 256),
            append_assoc accept (0 ∷ []) (drop (length (accept ++ 0 ∷ [])) (mem.garbage 256)),
            c_string_lem accept (drop (length (accept ++ 0 ∷ [])) (mem.garbage 256))
                (encode_source-positive (digest_bytes (sha1 (key ++ gid)))),
          )
          refl

    module _ (hostname : List ℕ) (supported : List (List ℕ)) (host_short : length hostname ≤ 63)
        (host_positive : All (λ b. 0 < b) hostname) where
      abbrev head : List ℕ
      head = status_line ++ (hostname ++ (upgrade_lines ++ (accept ++ crlf)))

      length-head : length head < 1000
      length-head = omega (
        arith,
        host_short,
        length-accept,
        length-append {0} hostname (upgrade_lines ++ (accept ++ crlf)),
        length-append {0} accept crlf,
      )

      head-positive : All (λ b. 0 < b) head
      head-positive =
          All-positive status_line (hostname ++ (upgrade_lines ++ (accept ++ crlf))) (omega arith) (
            All-positive hostname (upgrade_lines ++ (accept ++ crlf)) host_positive (
              All-positive upgrade_lines (accept ++ crlf) (omega arith) (
                All-positive accept crlf (encode_source-positive (digest_bytes (sha1 (key ++ gid))))
                  (omega arith))))

      -- The answer, with the subprotocol that is chosen, and that with none.
      abbrev pub answer_with : Option (List ℕ) → List ℕ
      answer_with found = head ++ protocol_lines found

      abbrev pub answer_text : List ℕ
      answer_text = head ++ crlf

      no_protocol : get_selected_subprotocol supported (replicate 1024 0) ≡ ok none
      unfolding get_selected_subprotocol pieces_of select
      no_protocol = refl

      abbrev behind : List ℕ
      behind = 0 ∷ drop (length head + 1) (replicate 1024 0 ++ mem.garbage 1024)

      length-behind : length behind ≡ 2048 - length head
      length-behind = omega (
        arith,
        length-head,
        length-drop (length head + 1) (replicate 1024 0 ++ mem.garbage 1024),
        length-append {0} (replicate 1024 0) (mem.garbage 1024),
        mem.length-garbage 1024,
      )

      head_written : print_at (replicate 1024 0 ++ mem.garbage 1024) 0 head ≡ ok (head ++ behind)
      head_written =
          print_at_lem 0 [] (replicate 1024 0 ++ mem.garbage 1024) head refl
            (omega (arith, length-head))
            (omega (
              arith,
              length-head,
              length-append {0} (replicate 1024 0) (mem.garbage 1024),
              mem.length-garbage 1024,
            ))

      response-found :
          (protocols : List ℕ) (found : Option (List ℕ))
          → get_selected_subprotocol supported protocols ≡ ok found
          → length (protocol_lines found) ≤ 1023
          → response mem sha1 hostname supported accept protocols
            ≡ ok (answer_with found ++ 0 ∷ drop (length (protocol_lines found) + 1) behind)
      unfolding response
      response-found protocols found selected few =
          rw (head_written, selected)
            (print_at_lem (length head) head behind (protocol_lines found) refl few
              (omega (arith, few, length-head, length-behind)))

      pub length-answer_text : length answer_text < 1002
      length-answer_text = omega (arith, length-head, length-append {0} head crlf)

      pub length-answer_with :
          (found : Option (List ℕ))
          → length (protocol_lines found) ≤ 1023
          → length (answer_with found) < 2023
      length-answer_with found few =
          omega (arith, few, length-head, length-append {0} head (protocol_lines found))

      -- The state that a handshake leaves.
      abbrev pub opened_with : Option (List ℕ) → ClientState → ClientState
      opened_with found s = record s {
        flags = record no_flags { connected = true };
        out_data =
            some
              (record { bytes = answer_with found; idx = 0; data_sz = length (answer_with found) });
      }

      abbrev pub opened : ClientState → ClientState
      opened s = opened_with none s

      put_response-opened :
          (s : ClientState) (found : Option (List ℕ)) (rest : List ℕ)
          → s.out_data ≡ none
          → All (λ b. 0 < b) (protocol_lines found)
          → length (protocol_lines found) ≤ 1023
          → put_response mem s (answer_with found ++ 0 ∷ rest) ≡ ok (opened_with found s, pos 0)
      unfolding put_response lws_calloc
      put_response-opened s found rest empty positive few =
          let text = answer_with found in
          let n = length text in
          let size : n < 2023 = length-answer_with found few in
          rw
            (
              c_string_lem text rest
                  (All-positive head (protocol_lines found) head-positive positive),
              empty,
              grants n (omega arith) (omega (arith, size)),
              read_seam 0 n [] (text ++ 0 ∷ rest) refl
                  (omega (arith, length-append {0} text (0 ∷ rest))),
              take-length text (0 ∷ rest),
              write_seam 0 [] (replicate n 0) text refl
                  (omega (arith, length-replicate {A = ℕ} n 0)),
              drop_all {A = ℕ} n (replicate n 0) (omega (arith, length-replicate {A = ℕ} n 0)),
              append-nil text,
            )
            refl

      -- The answer to a key and the protocols that were found in the request.
      pub answered :
          (s : ClientState) (scan : Scan) (behind_key : List ℕ) (found : Option (List ℕ))
          → scan.key ≡ some (key ++ 0 ∷ behind_key)
          → get_selected_subprotocol supported scan.protocols ≡ ok found
          → All (λ b. 0 < b) (protocol_lines found)
          → length (protocol_lines found) ≤ 1023
          → s.out_data ≡ none
          → send_answer mem sha1 hostname supported s scan ≡ ok (opened_with found s, pos 0)
      unfolding send_answer
      answered s scan behind_key found has_key selected positive_lines few empty =
          rw (has_key, accept_of-key behind_key, response-found scan.protocols found selected few)
            (put_response-opened s found (drop (length (protocol_lines found) + 1) behind) empty
              positive_lines few)

      -- A request with a key of at most 987 bytes and no protocol header is answered where there is
      -- memory for it, the host name has at most 63 bytes and nothing is to be sent yet: the client
      -- is connected, with no other flag, and what is to be sent is the answer of RFC 6455 with the
      -- Base64 form of the digest of the key and the identifier.
      pub handshake_answered :
          (s : ClientState) (text rest : List ℕ) (len : ℕ)
          → IsRequest mem grants text len key
          → s.out_data ≡ none
          → populate_handshake mem sha1 hostname supported s (text ++ 0 ∷ rest) len
            ≡ ok (opened s, pos 0)
      handshake_answered s text rest len is empty =
          handshake-send_answer mem grants sha1 hostname supported s text rest len key
            (omega (arith, short)) is
          ∙ answered s (scan_of mem grants key) (replicate 18 0) none refl no_protocol (omega arith)
              (omega arith) empty
