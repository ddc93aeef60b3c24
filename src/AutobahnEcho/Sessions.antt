-- ===== src/AutobahnEcho/Sessions.antt =====
-- A connection from its request to its end, as examples/autobahn-echo.c serves it.
use libwebsock.Prelude.{
  ℕ, zero, suc, ◌-◌, ◌^◌, ◌≤◌, ◌<◌, ◌≡◌, refl, ◌∙◌, ap, true, false, List, [], ◌∷◌, ◌++◌,
  append-nil, append_assoc, arith, All, map, some, length, replicate, ok, fault, ℤ, pos,
  is_minus_one, negsuc, leb, le→leb, ◌==◌,
}
use libwebsock.Memory.{Allocator, read}
use libwebsock.Memory.Blocks.{read_seam, take_all}
use libwebsock.Types.{ClientState}
use libwebsock.Wire.{client_frame}
use libwebsock.Handshake.{Digest, max_sub_protocols, crlf_crlf, populate_handshake}
use libwebsock.Handshake.Strings.{Contains, search-fault}
use libwebsock.Handshake.Request.{IsRequest}
use libwebsock.Handshake.Answer.{answer_text, opened, handshake_answered}
use libwebsock.Client.{client_init, cleanup_outdata}
use libwebsock.AutobahnEcho.{
  maxmsg, Socket, is_positive, write_to_client, read_from_client, serve, do_processing,
}
use libwebsock.AutobahnEcho.Echoes.{
  Sent, frame_sent, frame_back, CanServe, open_client, answered, handled,
}

-- One result of `write` for each message.
abbrev pub Accepted : List ℤ → List Sent → Type 0
Accepted results [] = Unit
Accepted [] (m ∷ ms) = ⊥
Accepted (n ∷ results) (m ∷ ms) = (is_positive n ≡ true) × Accepted results ms

module _ (mem : Allocator) (grants : (n : ℕ) → n ≤ 2 ^ 30 → mem.fits n ≡ true) (left : ℤ)
    (goes_on : is_minus_one left ≡ false) where
  -- What is to be sent is written at once, and the client is as it was before.
  written_whole :
      (s : ClientState) (bytes : List ℕ) (n : ℕ) (results : List ℤ) (given : List (List ℕ))
      → s.out_data ≡ some (record { bytes = bytes; idx = 0; data_sz = length bytes })
      → write_to_client (record { results = pos (suc n) ∷ results; given = given }) s
        ≡ ok (record { results = results; given = given ++ bytes ∷ [] }, cleanup_outdata s, pos 0)
  unfolding write_to_client
  written_whole s bytes n results given e =
      let front : read bytes 0 (length bytes) ≡ ok bytes =
        read_seam 0 (length bytes) [] bytes refl (omega arith)
        ∙ ap ok (take_all (length bytes) bytes (omega arith)) in
      let more : (suc n == 0) ≡ false = ground arith in rw (e, front, more) refl

  module _ (sha1 : List ℕ → Digest) (hostname : List ℕ) (supported : List (List ℕ)) where
    message_served :
        (m : Sent) (n : ℕ) (results : List ℤ) (given : List (List ℕ))
        → CanServe m
        → read_from_client mem left sha1 hostname supported
            (frame_sent m)
            (record { results = pos (suc n) ∷ results; given = given })
            open_client
          ≡ ok
              (record { results = results; given = given ++ frame_back m ∷ [] }, open_client, pos 0)
    unfolding read_from_client cleanup_outdata client_frame
    message_served m n results given can =
        let some_bytes : (length (frame_sent m) == 0) ≡ false = ground arith in
        let room : leb (length (frame_sent m)) maxmsg ≡ true = le→leb _ _ can.3 in
        let size : (answered m).out_data
            ≡ some (record { bytes = frame_back m; idx = 0; data_sz = length (frame_back m) }) =
          ap (λ n. some (record { bytes = frame_back m; idx = 0; data_sz = n })) (omega arith) in
        rw
          (
            some_bytes,
            room,
            handled mem grants left goes_on m can,
            goes_on,
            written_whole (answered m) (frame_back m) n results given size,
          )
          refl

    messages_served :
        (ms : List Sent) (results : List ℤ) (given : List (List ℕ))
        → All CanServe ms
        → Accepted results ms
        → serve mem left sha1 hostname supported
            (map frame_sent ms)
            (record { results = results; given = given })
            open_client
          ≡ ok (given ++ map frame_back ms)
    unfolding serve read_from_client
    messages_served [] results given can accepted = rw (append-nil given) refl
    messages_served (m ∷ ms) [] given can accepted = absurd accepted
    messages_served (m ∷ ms) (negsuc n ∷ results) given can accepted = absurd (ground arith)
    messages_served (m ∷ ms) (pos zero ∷ results) given can accepted = absurd (ground arith)
    messages_served (m ∷ ms) (pos (suc n) ∷ results) given (can, others) accepted =
        rw (message_served m n results given can) (
          messages_served ms results (given ++ frame_back m ∷ []) others accepted.1
          ∙ ap ok (append_assoc given (frame_back m ∷ []) (map frame_back ms)))

    greeted :
        (key : List ℕ) (short : length key ≤ 987) (positive : All (λ b. 0 < b) key)
        (host_short : length hostname ≤ 63) (host_positive : All (λ b. 0 < b) hostname)
        (request : List ℕ) (n : ℕ) (results : List ℤ) (given : List (List ℕ))
        → 0 < length request
        → length request < maxmsg
        → IsRequest mem (λ n some_byte few. grants n few) request (length request) key
        → read_from_client mem left sha1 hostname supported request
            (record { results = pos (suc n) ∷ results; given = given })
            client_init
          ≡ ok (
            record {
              results = results;
              given =
                  given
                  ++ answer_text mem
                      (λ n some_byte few. grants n few)
                      sha1
                      key
                      short
                      positive
                      hostname
                      supported
                      host_short
                      host_positive
                    ∷ [];
            },
            open_client,
            pos 0,
          )
    unfolding read_from_client client_init cleanup_outdata
    greeted key short positive host_short host_positive request n results given some_bytes room is =
        let with_memory = λ (n : ℕ) (some_byte : 0 < n) (few : n ≤ 2 ^ 30). grants n few in
        let nonempty : (length request == 0) ≡ false = ground arith in
        let fits : leb (length request) maxmsg ≡ true = le→leb _ _ (omega arith) in
        let zeros : maxmsg - length request ≡ suc (maxmsg - length request - 1) = omega arith in
        rw
          (
            nonempty,
            fits,
            zeros,
            handshake_answered mem with_memory sha1 key short positive hostname supported host_short
                host_positive client_init request (replicate (maxmsg - length request - 1) 0)
                (length request) is refl,
            written_whole
                (opened mem with_memory sha1 key short positive hostname supported host_short
                  host_positive client_init)
                (answer_text mem with_memory sha1 key short positive hostname supported host_short
                  host_positive)
                n results given refl,
          )
          refl

  -- With memory, a server made of examples/autobahn-echo.c reads a request of less than 4096 bytes
  -- with a key of at most 987 bytes and no protocol header, and then messages, text in UTF-8 without
  -- NUL or binary, one masked frame of at most 4096 bytes in each `read`, and then nothing; each `write` takes something, and the value that the
  -- `onmessage` callback leaves behind is not -1. The server writes the answer to the request and
  -- then each message's frame, with the same opcode and payload and without a mask, in their
  -- order, one `write` each; and it ends.
  pub session_echoed :
      (sha1 : List ℕ → Digest) (key : List ℕ) (short : length key ≤ 987)
      (positive : All (λ b. 0 < b) key) (request : List ℕ) (ms : List Sent) (n : ℕ)
      (results : List ℤ)
      → 0 < length request
      → length request < maxmsg
      → IsRequest mem (λ n some_byte few. grants n few) request (length request) key
      → All CanServe ms
      → Accepted results ms
      → do_processing mem left sha1 (request ∷ map frame_sent ms) (pos (suc n) ∷ results)
        ≡ ok (
            answer_text mem
              (λ n some_byte few. grants n few)
              sha1
              key
              short
              positive
              []
              (replicate max_sub_protocols [])
              (omega arith)
              tt
            ∷ map frame_back ms)
  unfolding do_processing serve
  session_echoed sha1 key short positive request ms n results some_bytes room is can accepted =
      rw
        (greeted sha1 [] (replicate max_sub_protocols []) key short positive (omega arith) tt
          request n results [] some_bytes room is)
        (messages_served sha1 [] (replicate max_sub_protocols []) ms results (_ ∷ []) can accepted)

-- A first `read` that fills the buffer with 4096 bytes other than NUL, without "\r\n\r\n" among
-- them, makes the handshake search behind the buffer, whatever memory there is.
pub full_read-fault :
    (mem : Allocator) (left : ℤ) (sha1 : List ℕ → Digest) (hostname : List ℕ)
    (supported : List (List ℕ)) (chunk : List ℕ) (socket : Socket) (s : ClientState)
    → s.flags.connecting ≡ true
    → length chunk ≡ maxmsg
    → All (λ b. 0 < b) chunk
    → ¬ Contains (13 ∷ 10 ∷ 13 ∷ 10 ∷ []) chunk
    → read_from_client mem left sha1 hostname supported chunk socket s ≡ fault
unfolding read_from_client populate_handshake
full_read-fault mem left sha1 hostname supported chunk socket s begins full positive absent =
    let some_bytes : (length chunk == 0) ≡ false = ground (arith, full) in
    let fits : leb (length chunk) maxmsg ≡ true = le→leb _ _ (omega (arith, full)) in
    let none_left : maxmsg - length chunk ≡ 0 = omega (arith, full) in
    rw
      (
        some_bytes,
        fits,
        begins,
        none_left,
        append-nil chunk,
        search-fault crlf_crlf chunk positive absent,
      )
      refl
