-- ===== src/Handshake/Request.antt =====
-- The lines of a request, up to its key.
use libwebsock.Prelude.{
  ℕ, ◌+◌, ◌-◌, ◌%◌, ◌^◌, ◌≤◌, ◌<◌, ◌≡◌, refl, ◌∙◌, true, false, List, [], ◌∷◌, ◌++◌, append-nil,
  arith, All, some, length, length-append, take, replicate, ok, fault,
}
use libwebsock.Memory.{Allocator, lws_malloc, lws_calloc}
use libwebsock.Memory.Blocks.{write_seam, drop_all}
use libwebsock.Types.{ClientState}
use libwebsock.CStrings.{strstr, tokens}
use libwebsock.Handshake.{
  Digest, Scan, no_scan, key_header, protocol_header, crlf_crlf, line_break, scan_line, scan_lines,
  accept_of, send_answer, populate_handshake,
}
use libwebsock.Handshake.Strings.{search-strstr, copied_text-take}
use libwebsock.Handshake.Key.{concatenated-long}

-- A line that is of neither header.
abbrev pub IsPlain : List ℕ → Type 0
IsPlain line = (strstr key_header line ≡ false) × (strstr protocol_header line ≡ false)

module _ (mem : Allocator) (grants : (n : ℕ) → 0 < n → n ≤ 2 ^ 30 → mem.fits n ≡ true) where
  scan_line-plain : (scan : Scan) (line : List ℕ) → IsPlain line → scan_line mem scan line ≡ ok scan
  unfolding scan_line
  scan_line-plain scan line plain = rw (plain.0, plain.1) refl

  pub scan_lines-plain :
      (scan : Scan) (before rest : List (List ℕ))
      → All IsPlain before
      → scan_lines mem scan (before ++ rest) ≡ scan_lines mem scan rest
  unfolding scan_lines
  scan_lines-plain scan [] rest plain = refl
  scan_lines-plain scan (line ∷ before) rest plain =
      rw (scan_line-plain scan line plain.0) (scan_lines-plain scan before rest plain.1)

  pub scan_line-key :
      (key : List ℕ)
      → length key ≤ 2 ^ 29
      → scan_line mem no_scan (key_header ++ key)
        ≡ ok (record no_scan { key = some (key ++ 0 ∷ replicate 18 0) })
  unfolding scan_line strstr lws_malloc
  scan_line-key key short =
      let n = length (key_header ++ key) in
      let size : n ≡ 19 + length key = omega arith in
      let padding : n - length key ≡ 19 = omega arith in
      let block : length (mem.garbage n) ≡ n = mem.length-garbage n in
      let padded : List ℕ = key ++ replicate 19 0 in
      let all : length padded ≡ n = omega (arith, length-append {0} key (replicate 19 0)) in
      rw
        (
          grants n (omega arith) (omega arith),
          padding,
          write_seam 0 [] (mem.garbage n) padded refl (omega (arith, all, block)),
          drop_all (length padded) (mem.garbage n) (omega (arith, all, block)),
          append-nil padded,
        )
        refl

  -- A request, with a NUL behind it, that has an end of headers, one line with the key header at its
  -- start, and no other line with a key or a protocol header.
  pub record IsRequest (text : List ℕ) (len : ℕ) (key : List ℕ) : Type 0 where
    pub positive : All (λ b. 0 < b) text
    pub ends : strstr crlf_crlf text ≡ true
    pub small : len < 2 ^ 30
    pub before : List (List ℕ)
    pub after : List (List ℕ)
    pub lines : tokens line_break (take len text) ≡ before ++ (key_header ++ key) ∷ after
    pub plain : All IsPlain before
    pub plain_after : All IsPlain after

  -- What is found of a request.
  abbrev pub scan_of : List ℕ → Scan
  scan_of key = record no_scan { key = some (key ++ 0 ∷ replicate 18 0) }

  pub handshake-send_answer :
      (sha1 : List ℕ → Digest) (hostname : List ℕ) (supported : List (List ℕ)) (s : ClientState)
      (text rest : List ℕ) (len : ℕ) (key : List ℕ)
      → length key ≤ 2 ^ 29
      → IsRequest text len key
      → populate_handshake mem sha1 hostname supported s (text ++ 0 ∷ rest) len
        ≡ send_answer mem sha1 hostname supported s (scan_of key)
  unfolding populate_handshake lws_calloc scan_lines
  handshake-send_answer sha1 hostname supported s text rest len key short is =
      let fits : (len + 1) % 2 ^ 64 ≡ len + 1 = omega (arith, is.small) in
      rw
        (
          search-strstr 13 (10 ∷ 13 ∷ 10 ∷ []) text rest (omega arith) is.positive,
          is.ends,
          fits,
          grants (len + 1) (omega arith) (omega (arith, is.small)),
          copied_text-take len text rest is.positive,
          is.lines,
          scan_lines-plain no_scan is.before ((key_header ++ key) ∷ is.after) is.plain,
          scan_line-key key short,
          ← append-nil is.after,
          scan_lines-plain (scan_of key) is.after [] is.plain_after,
        )
        refl

  -- Where there is memory for it, a request with a key of more than 987 bytes writes outside
  -- `concat[1024]`, whatever the host name and the protocols are.
  pub handshake-fault :
      (sha1 : List ℕ → Digest) (hostname : List ℕ) (supported : List (List ℕ)) (s : ClientState)
      (text rest : List ℕ) (len : ℕ) (key : List ℕ)
      → 987 < length key
      → length key ≤ 2 ^ 29
      → All (λ b. 0 < b) key
      → IsRequest text len key
      → populate_handshake mem sha1 hostname supported s (text ++ 0 ∷ rest) len ≡ fault
  unfolding send_answer accept_of
  handshake-fault sha1 hostname supported s text rest len key long short positive is =
      handshake-send_answer sha1 hostname supported s text rest len key short is
      ∙ rw (concatenated-long key (replicate 18 0) positive long) refl
