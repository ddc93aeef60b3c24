-- ===== src/Handshake.antt =====
-- src/websock.c, `libwebsock_populate_handshake` and `get_selected_subprotocol`: the answer to the
-- request that opens a connection. SHA-1 is a parameter.
pub mod Strings
pub mod Supported
pub mod Key
pub mod Protocols
pub mod Request
pub mod Answer
pub mod Chosen
use libwebsock.Prelude.{
  ℕ, zero, suc, ◌+◌, ◌-◌, ◌*◌, ◌%◌, ◌^◌, Bool, true, false, not, ◌&&◌, ◌||◌, List, [], ◌∷◌, ◌++◌,
  Option, none, some, Outcome, ok, fault, ltb, ◌==◌, if◌then◌else◌, length, take, drop, replicate,
  minus_one, ℤ, pos, ◌>>=◌,
}
use libwebsock.CStrings.{strstr, search, copied_text, pieces_of, equal, tokens, hex8, hex_bytes}
use libwebsock.Memory.{Allocator, read, write, lws_malloc, lws_calloc, c_string}
use libwebsock.Types.{ClientState, WsString, Reply, no_flags}
use libwebsock.Base64.{base64_encode}

abbrev pub max_sub_protocols : ℕ
max_sub_protocols = 8

abbrev pub max_sub_protocol_length : ℕ
max_sub_protocol_length = 1024

-- "\r\n\r\n" and "\n\n"
abbrev pub crlf_crlf : List ℕ
crlf_crlf = 13 ∷ 10 ∷ 13 ∷ 10 ∷ []

abbrev pub lf_lf : List ℕ
lf_lf = 10 ∷ 10 ∷ []

-- "Sec-WebSocket-Key: "
abbrev pub key_header : List ℕ
key_header =
    83 ∷ 101 ∷ 99 ∷ 45 ∷ 87 ∷ 101 ∷ 98 ∷ 83 ∷ 111 ∷ 99 ∷ 107 ∷ 101 ∷ 116 ∷ 45 ∷ 75 ∷ 101 ∷ 121 ∷ 58
    ∷ 32 ∷ []

-- "Sec-WebSocket-Protocol: "
abbrev pub protocol_header : List ℕ
protocol_header =
    83 ∷ 101 ∷ 99 ∷ 45 ∷ 87 ∷ 101 ∷ 98 ∷ 83 ∷ 111 ∷ 99 ∷ 107 ∷ 101 ∷ 116 ∷ 45 ∷ 80 ∷ 114 ∷ 111 ∷ 116
    ∷ 111 ∷ 99 ∷ 111 ∷ 108 ∷ 58 ∷ 32 ∷ []

-- "258EAFA5-E914-47DA-95CA-C5AB0DC85B11"
abbrev pub gid : List ℕ
gid =
    50 ∷ 53 ∷ 56 ∷ 69 ∷ 65 ∷ 70 ∷ 65 ∷ 53 ∷ 45 ∷ 69 ∷ 57 ∷ 49 ∷ 52 ∷ 45 ∷ 52 ∷ 55 ∷ 68 ∷ 65 ∷ 45
    ∷ 57 ∷ 53 ∷ 67 ∷ 65 ∷ 45 ∷ 67 ∷ 53 ∷ 65 ∷ 66 ∷ 48 ∷ 68 ∷ 67 ∷ 56 ∷ 53 ∷ 66 ∷ 49 ∷ 49 ∷ []

-- "HTTP/1.1 101 Switching Protocols\r\nServer: "
abbrev pub status_line : List ℕ
status_line =
    72 ∷ 84 ∷ 84 ∷ 80 ∷ 47 ∷ 49 ∷ 46 ∷ 49 ∷ 32 ∷ 49 ∷ 48 ∷ 49 ∷ 32 ∷ 83 ∷ 119 ∷ 105 ∷ 116 ∷ 99 ∷ 104
    ∷ 105 ∷ 110 ∷ 103 ∷ 32 ∷ 80 ∷ 114 ∷ 111 ∷ 116 ∷ 111 ∷ 99 ∷ 111 ∷ 108 ∷ 115 ∷ 13 ∷ 10 ∷ 83 ∷ 101
    ∷ 114 ∷ 118 ∷ 101 ∷ 114 ∷ 58 ∷ 32 ∷ []

-- "\r\nUpgrade: websocket\r\nConnection: Upgrade\r\nSec-WebSocket-Accept: "
abbrev pub upgrade_lines : List ℕ
upgrade_lines =
    13 ∷ 10 ∷ 85 ∷ 112 ∷ 103 ∷ 114 ∷ 97 ∷ 100 ∷ 101 ∷ 58 ∷ 32 ∷ 119 ∷ 101 ∷ 98 ∷ 115 ∷ 111 ∷ 99
    ∷ 107 ∷ 101 ∷ 116 ∷ 13 ∷ 10 ∷ 67 ∷ 111 ∷ 110 ∷ 110 ∷ 101 ∷ 99 ∷ 116 ∷ 105 ∷ 111 ∷ 110 ∷ 58 ∷ 32
    ∷ 85 ∷ 112 ∷ 103 ∷ 114 ∷ 97 ∷ 100 ∷ 101 ∷ 13 ∷ 10 ∷ 83 ∷ 101 ∷ 99 ∷ 45 ∷ 87 ∷ 101 ∷ 98 ∷ 83
    ∷ 111 ∷ 99 ∷ 107 ∷ 101 ∷ 116 ∷ 45 ∷ 65 ∷ 99 ∷ 99 ∷ 101 ∷ 112 ∷ 116 ∷ 58 ∷ 32 ∷ []

abbrev pub crlf : List ℕ
crlf = 13 ∷ 10 ∷ []

-- "\r\n" as delimiters
abbrev pub line_break : ℕ → Bool
line_break b = b == 13 || b == 10

abbrev pub comma : ℕ → Bool
comma b = b == 44

-- The words of `Message_Digest`.
pub record Digest : Type 0 where
  pub word0 : ℕ
  pub word1 : ℕ
  pub word2 : ℕ
  pub word3 : ℕ
  pub word4 : ℕ

-- What the loop over the lines has found: `key`, the block of `client_sub_protocols`, and
-- `len_subprotocol`.
pub record Scan : Type 0 where
  pub key : Option (List ℕ)
  pub protocols : List ℕ
  pub len : ℕ

abbrev pub no_scan : Scan
no_scan = record { key = none; protocols = replicate max_sub_protocol_length 0; len = 0 }

-- The bytes between two delimiters, if there are any.
abbrev pub is_token : List ℕ → Bool
is_token [] = false
is_token (b ∷ bs) = true

-- `strcmp` against the entries of `supported_sub_protocols`, each a string. The entries are arrays,
-- so the test for NULL never ends the loop.
unfoldable pub is_supported : List (List ℕ) → List ℕ → Bool
is_supported [] tok = false
is_supported (entry ∷ entries) tok = equal tok entry || is_supported entries tok

-- The loop over the tokens of an array, which leaves it where it has no NUL and no token before its
-- last delimiter is supported. `strtok` gives no empty token.
unfoldable pub select : List (List ℕ) → List (List ℕ) → Bool → Outcome (Option (List ℕ))
select supported [] terminated = ok none
select supported (piece ∷ []) terminated =
    if not terminated
    then fault
    else if is_token piece && is_supported (take max_sub_protocols supported) piece
    then ok (some piece)
    else ok none
select supported (piece ∷ next ∷ more) terminated =
    let rest = select supported (next ∷ more) terminated in
    if is_token piece && is_supported (take max_sub_protocols supported) piece
    then ok (some piece)
    else rest

unfoldable pub get_selected_subprotocol : List (List ℕ) → List ℕ → Outcome (Option (List ℕ))
get_selected_subprotocol supported object =
    let (found, terminated) = pieces_of comma object in select supported found terminated

-- The digest through `sha1buf` to the 20 bytes of `sha1mac`.
unfoldable pub digest_bytes : Digest → List ℕ
digest_bytes d =
    hex_bytes (hex8 d.word0 ++ (hex8 d.word1 ++ (hex8 d.word2 ++ (hex8 d.word3 ++ hex8 d.word4))))

-- A protocol header: a comma, if there was one before, and its value.
unfoldable pub append_protocols : Scan → List ℕ → Outcome Scan
append_protocols scan value =
    if ltb (max_sub_protocol_length - 1) (scan.len + length value) then ok scan else (do
      let at = if ltb 0 scan.len then scan.len + 1 else scan.len
      apart ←
          (if ltb 0 scan.len then write scan.protocols scan.len (44 ∷ []) else ok scan.protocols)
      protocols ← write apart at value
      ok (record scan { protocols = protocols; len = at + length value }))

-- `memset`, and `strncat` of the key and the identifier to `concat[1024]`.
unfoldable pub concatenated : List ℕ → Outcome (List ℕ)
concatenated key = do
  text ← c_string key
  with_key ← write (replicate 1024 0) 0 (text ++ 0 ∷ [])
  whole ← write with_key (length text) (gid ++ 0 ∷ [])
  c_string whole

-- `snprintf(buf + at, 1024, …)` of a text.
unfoldable pub print_at : List ℕ → ℕ → List ℕ → Outcome (List ℕ)
print_at buf at text = write buf at (take 1023 text ++ 0 ∷ [])

abbrev pub protocol_lines : Option (List ℕ) → List ℕ
protocol_lines none = crlf
protocol_lines (some selected) = protocol_header ++ (selected ++ (crlf ++ crlf))

module _ (mem : Allocator) where
  -- One line. `strncpy` pads the copy of the key with NUL up to the length of the line.
  unfoldable pub scan_line : Scan → List ℕ → Outcome Scan
  scan_line scan tok =
      if strstr key_header tok
      then (do
        block ← lws_malloc mem (length tok)
        let value = drop (length key_header) tok
        key ← write block 0 (value ++ replicate (length tok - length value) 0)
        ok (record scan { key = some key }))
      else if strstr protocol_header tok
      then append_protocols scan (drop (length protocol_header) tok)
      else ok scan

  unfoldable pub scan_lines : Scan → List (List ℕ) → Outcome Scan
  scan_lines scan [] = ok scan
  scan_lines scan (tok ∷ toks) = scan_line scan tok >>= (λ scan. scan_lines scan toks)

  -- The end of the function: `out_data`, and `flags = STATE_CONNECTED`.
  unfoldable pub put_response : ClientState → List ℕ → Reply
  put_response s buf = do
    text ← c_string buf
    out ← (elim s.out_data [
      | some out ↦ ok out
      | none ↦
          lws_calloc mem (length text)
          >>= (λ block. ok (record { bytes = block; idx = 0; data_sz = length text }))
    ])
    bytes ← read buf 0 out.data_sz
    filled ← write out.bytes out.idx bytes
    ok (
      record s {
        flags = record no_flags { connected = true };
        out_data = some (record out { bytes = filled });
      },
      pos 0,
    )

  module _ (sha1 : List ℕ → Digest) where
    -- The value of Sec-WebSocket-Accept.
    unfoldable pub accept_of : List ℕ → Outcome (List ℕ)
    accept_of key = do
      input ← concatenated key
      base64buf ← lws_malloc mem 256
      encoded ← base64_encode (digest_bytes (sha1 input)) base64buf 256
      c_string encoded.0

    module _ (hostname : List ℕ) (supported : List (List ℕ)) where
      -- `buf[2048]`, of which the first 1024 bytes are zeroed.
      unfoldable pub response : List ℕ → List ℕ → Outcome (List ℕ)
      response accept protocols = do
        let head = status_line ++ (hostname ++ (upgrade_lines ++ (accept ++ crlf)))
        started ← print_at (replicate 1024 0 ++ mem.garbage 1024) 0 head
        selected ← get_selected_subprotocol supported protocols
        print_at started (length head) (protocol_lines selected)

      unfoldable pub send_answer : ClientState → Scan → Reply
      send_answer s scan = elim scan.key [
        | none ↦ ok (s, minus_one)
        | some key ↦
            accept_of key
            >>= (λ accept. response accept scan.protocols >>= (λ buf. put_response s buf))
      ]

      unfoldable pub populate_handshake : ClientState → List ℕ → ℕ → Reply
      populate_handshake s request len = do
        ends ← search crlf_crlf request
        (if ends then ok true else search lf_lf request) >>= (λ found.
            if not found
            then ok (s, minus_one)
            else (lws_calloc mem ((len + 1) % 2 ^ 64) >>= (λ headers.
                copied_text len request >>= (λ text.
                  scan_lines no_scan (tokens line_break text) >>= (λ scan. send_answer s scan)))))
