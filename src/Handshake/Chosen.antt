-- ===== src/Handshake/Chosen.antt =====
-- The answer to a request that asks for subprotocols.
use libwebsock.Prelude.{
  ℕ, ◌-◌, ◌^◌, ◌≤◌, ◌<◌, ◌≡◌, true, false, List, ◌∷◌, ◌++◌, All, length, take, replicate,
}
use libwebsock.Memory.{Allocator}
use libwebsock.CStrings.{strstr, tokens}
use libwebsock.Handshake.{Scan, key_header, protocol_header, crlf_crlf, line_break}
use libwebsock.Handshake.Request.{IsPlain, scan_of}

-- A token is a part of the text: no longer, and without NUL.
abbrev IsPart : ℕ → List ℕ → Type 0
IsPart n t = (length t ≤ n) × All (λ b. 0 < b) t

module _ (mem : Allocator) (grants : (n : ℕ) → 0 < n → n ≤ 2 ^ 30 → mem.fits n ≡ true) where
  -- A request with one key header and one protocol header behind it, each at the start of a line.
  pub record AsksFor (text : List ℕ) (len : ℕ) (key value : List ℕ) : Type 0 where
    pub positive : All (λ b. 0 < b) text
    pub ends : strstr crlf_crlf text ≡ true
    pub small : len < 2 ^ 30
    pub before : List (List ℕ)
    pub between : List (List ℕ)
    pub after : List (List ℕ)
    pub lines :
        tokens line_break (take len text)
        ≡ before ++ (key_header ++ key) ∷ (between ++ (protocol_header ++ value) ∷ after)
    pub plain : All IsPlain before
    pub plain_between : All IsPlain between
    pub plain_after : All IsPlain after
    pub no_key : strstr key_header (protocol_header ++ value) ≡ false

  -- What is found of it.
  abbrev asked : List ℕ → List ℕ → Scan
  asked key value = record (scan_of mem grants key) {
    protocols = value ++ replicate (1024 - length value) 0;
    len = length value;
  }
