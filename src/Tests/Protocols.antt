-- ===== src/Tests/Protocols.antt =====
-- A request that asks for subprotocols, at concrete inputs.
use libwebsock.Prelude.{ℕ, List, ◌∷◌, ◌++◌}
use libwebsock.Handshake.{key_header, protocol_header, crlf, crlf_crlf}

-- A request for the protocols "a" and "e", of which the server supports "e".
abbrev asking : List ℕ
asking =
    71
    ∷ 13
    ∷ 10
    ∷ (key_header ++ (97 ∷ 98 ∷ 99 ∷ (crlf ++ (protocol_header ++ (97 ∷ 44 ∷ 101 ∷ crlf_crlf)))))
