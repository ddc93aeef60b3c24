-- ===== src/Tests/Handshaking.antt =====
-- Requests that open a connection, at concrete inputs.
use mathlib.Core.List.{Memᴰ}
use mathlib.Core.List.Memᴰ
use libwebsock.Prelude.{
  ℕ, zero, suc, none, ◌<◌, ◌≡◌, refl, List, [], ◌∷◌, ◌++◌, arith, All, Option, length, take,
  replicate, ok, fault, ◌>>=◌, pos, ◌≤◌, ◌^◌, true,
}
use libwebsock.CStrings.{strstr, tokens, segments, nonempty}
use libwebsock.Handshake.{
  Digest, Scan, key_header, crlf_crlf, comma, max_sub_protocols, get_selected_subprotocol,
  append_protocols, populate_handshake,
}
use libwebsock.Handshake.Key.{All-positive}
use libwebsock.Handshake.Protocols.{IsFirst, get_selected_subprotocol-IsFirst, protocols-fault}
use libwebsock.Handshake.Request.{IsRequest, handshake-fault}
use libwebsock.Handshake.Answer.{opened, handshake_answered}
use libwebsock.Types.{ClientState}
use libwebsock.Client.{client_init}
use libwebsock.Tests.Safety.{process}
use libwebsock.Tests.Data.{ample, connected_client}

-- A function in the place of SHA-1.
abbrev pub checksum : List ℕ → Digest
checksum bs = record { word0 = length bs; word1 = 2; word2 = 3; word3 = 4; word4 = 0xdeadbeef }

-- "GET / HTTP/1.1", and a header with the key "abc".
abbrev pub request : List ℕ
request = 71 ∷ 69 ∷ 84 ∷ 32 ∷ 47 ∷ 13 ∷ 10 ∷ (key_header ++ (97 ∷ 98 ∷ 99 ∷ crlf_crlf))

request-IsRequest : IsRequest ample (λ n some_byte h. refl) request 100 (97 ∷ 98 ∷ 99 ∷ [])
unfolding strstr tokens segments nonempty
request-IsRequest = record {
  positive = omega arith;
  ends = refl;
  small = omega arith;
  before = (71 ∷ 69 ∷ 84 ∷ 32 ∷ 47 ∷ []) ∷ [];
  after = [];
  lines = refl;
  plain = ((refl, refl), tt);
  plain_after = tt;
}

handshake_answered_example :
    populate_handshake ample checksum (104 ∷ []) [] connected_client (request ++ 0 ∷ []) 100
    ≡ ok (
      opened ample
          (λ n some_byte h. refl)
          checksum
          (97 ∷ 98 ∷ 99 ∷ [])
          (omega arith)
          (omega arith)
          (104 ∷ [])
          []
          (omega arith)
          (omega arith)
          connected_client,
      pos 0,
    )
handshake_answered_example =
    handshake_answered ample (λ n some_byte h. refl) checksum (97 ∷ 98 ∷ 99 ∷ []) (omega arith)
      (omega arith) (104 ∷ []) [] (omega arith) (omega arith) connected_client request [] 100
      request-IsRequest refl

pub letters : (n : ℕ) → All (λ b. 0 < b) (replicate n 97)
letters zero = tt
letters (suc n) = (omega arith, letters n)

long-IsRequest :
    IsRequest ample
      (λ n some_byte h. refl)
      (key_header ++ (replicate 988 97 ++ crlf_crlf))
      1100
      (replicate 988 97)
unfolding strstr tokens segments nonempty
long-IsRequest = record {
  positive =
      All-positive key_header (replicate 988 97 ++ crlf_crlf) (omega arith)
        (All-positive (replicate 988 97) crlf_crlf (letters 988) (omega arith));
  ends = refl;
  small = omega arith;
  before = [];
  after = [];
  lines = refl;
  plain = tt;
  plain_after = tt;
}

handshake-fault_example :
    populate_handshake ample checksum
      (104 ∷ [])
      []
      connected_client
      ((key_header ++ (replicate 988 97 ++ crlf_crlf)) ++ 0 ∷ [])
      1100
    ≡ fault
handshake-fault_example =
    handshake-fault ample (λ n some_byte h. refl) checksum (104 ∷ []) [] connected_client
      (key_header ++ (replicate 988 97 ++ crlf_crlf)) [] 1100 (replicate 988 97) (omega arith)
      (omega arith) (letters 988) long-IsRequest

-- "chat,echo", of which the server supports "echo".
get_selected_subprotocol-IsFirst_example :
    (found : Option (List ℕ)) × (get_selected_subprotocol
        ((101 ∷ 99 ∷ []) ∷ [])
        ((99 ∷ 104 ∷ 44 ∷ 101 ∷ 99 ∷ []) ++ 0 ∷ [])
      ≡ ok found)
    × IsFirst
        (take max_sub_protocols ((101 ∷ 99 ∷ []) ∷ []))
        (tokens comma (99 ∷ 104 ∷ 44 ∷ 101 ∷ 99 ∷ []))
        found
get_selected_subprotocol-IsFirst_example =
    get_selected_subprotocol-IsFirst ((101 ∷ 99 ∷ []) ∷ []) (99 ∷ 104 ∷ 44 ∷ 101 ∷ 99 ∷ []) []
      (omega arith)

abbrev half_full : Scan
half_full = record { key = none; protocols = replicate 500 97 ++ replicate 524 0; len = 500 }

none_of : (toks : List (List ℕ)) → All (λ tok. ¬ Memᴰ tok []) toks
none_of [] = tt
none_of (tok ∷ toks) = (λ m. Memᴰ.not-nil m, none_of toks)

protocols-fault_example :
    (append_protocols half_full (replicate 523 97)
      >>= (λ scan. get_selected_subprotocol [] scan.protocols))
    ≡ fault
protocols-fault_example =
    protocols-fault half_full (replicate 500 97) (replicate 523 97)
      (record { block = refl; size = refl; bytes = letters 500 }) (omega arith) (letters 523)
      (omega arith) [] (none_of (tokens comma ((replicate 500 97 ++ 44 ∷ []) ++ replicate 523 97)))

process-grants : (n : ℕ) → 0 < n → n ≤ 2 ^ 30 → process.fits n ≡ true
process-grants n some_byte few = ground arith

abbrev process_opened : ClientState
process_opened =
    opened process process-grants checksum (97 ∷ 98 ∷ 99 ∷ []) (omega arith) (omega arith)
      (104 ∷ []) [] (omega arith) (omega arith) client_init
