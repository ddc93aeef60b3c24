-- ===== src/Stream.antt =====
-- What a client makes of a peer's frames, without bytes, blocks and chains: independent of
-- `libwebsock_handle_recv` and `libwebsock_dispatch_message` of src/websock.c.
pub mod Pongs
pub mod Shown
pub mod Handed
pub mod Kept
pub mod Pieces
pub mod Follows
use libwebsock.Prelude.{
  ℕ, ◌+◌, ◌^◌, ◌≤◌, ◌<◌, ◌≡◌, ◌⊎◌, Bool, true, false, List, [], ◌∷◌, ◌++◌, All, Option, none, some,
  Outcome, ok, ◌>>=◌, ℤ, pos, is_minus_one, if◌then◌else◌, length,
}
use libwebsock.Utf8.Grammar.{IsByte}
use libwebsock.Utf8.Validity.{IsUtf8}
use libwebsock.Memory.{Allocator}
use libwebsock.Types.{ClientState, Message, Reply, ws_opcode_text, ws_opcode_binary}
use libwebsock.Wire.{client_frame}
use libwebsock.Dispatch.Masking.{Octets}
use libwebsock.Fragment.{make_fragment}

pub record Key : Type 0 where
  pub k0 : ℕ
  pub k1 : ℕ
  pub k2 : ℕ
  pub k3 : ℕ

-- What a peer sends: the last part of a message or an earlier one, with the opcode of the message,
-- and pings and pongs before, behind and between them.
pub data Piece : Type 0 where
  last more : ℕ → Key → List ℕ → Piece
  ping pong : Key → List ℕ → Piece

-- The first byte of its frame; only the first frame of a message carries the opcode.
abbrev pub first_byte : Bool → Piece → ℕ
first_byte inside (last opcode key payload) = if inside then 0x80 else 0x80 + opcode
first_byte inside (more opcode key payload) = if inside then 0x00 else opcode
first_byte inside (ping key payload) = 0x89
first_byte inside (pong key payload) = 0x8a

abbrev pub key_of : Piece → Key
key_of (last opcode key payload) = key
key_of (more opcode key payload) = key
key_of (ping key payload) = key
key_of (pong key payload) = key

abbrev pub payload_of : Piece → List ℕ
payload_of (last opcode key payload) = payload
payload_of (more opcode key payload) = payload
payload_of (ping key payload) = payload
payload_of (pong key payload) = payload

-- Whether a message is unfinished behind a piece.
abbrev pub inside_after : Bool → Piece → Bool
inside_after inside (last opcode key payload) = false
inside_after inside (more opcode key payload) = true
inside_after inside (ping key payload) = inside
inside_after inside (pong key payload) = inside

abbrev pub frame_of : Bool → Piece → List ℕ
frame_of inside p =
    let key = key_of p in
    client_frame (first_byte inside p) key.k0 key.k1 key.k2 key.k3 (payload_of p)

-- The bytes of the pieces on the wire.
abbrev pub wire : Bool → List Piece → List ℕ
wire inside [] = []
wire inside (p ∷ ps) = frame_of inside p ++ wire (inside_after inside p) ps

-- The message of which not all parts have arrived: its opcode, and its bytes so far.
abbrev pub Unfinished : Type 0
Unfinished = Option (ℕ × List ℕ)

abbrev pub is_inside : Unfinished → Bool
is_inside none = false
is_inside (some message) = true

abbrev pub opcode_with : Unfinished → ℕ → ℕ
opcode_with none opcode = opcode
opcode_with (some (first, bytes)) opcode = first

abbrev pub bytes_with : Unfinished → List ℕ → List ℕ
bytes_with none payload = payload
bytes_with (some (first, bytes)) payload = bytes ++ payload

-- The message that a last part completes.
abbrev pub completed : Unfinished → ℕ → List ℕ → Message
completed u opcode payload = record {
  opcode = opcode_with u opcode;
  payload_len = length (bytes_with u payload);
  payload = bytes_with u payload;
}

-- The client, what is unfinished, and the number that is returned.
abbrev pub Followed : Type 0
Followed = Outcome (ClientState × Unfinished × ℤ)

module _ (mem : Allocator) (onmessage : ClientState → Message → Reply) where
  -- Parts are gathered until their message is complete and handed over, pings are answered by the
  -- frame writer as they come, and pongs are passed over; -1 ends it.
  unfoldable pub follow : ClientState → Unfinished → List Piece → ℤ → Followed
  follow s u [] r = ok (s, u, r)
  follow s u (last opcode key payload ∷ ps) r =
      onmessage s (completed u opcode payload) >>= (λ called.
        let on = follow called.0 none ps called.1 in
        if is_minus_one called.1 then ok (called.0, none, called.1) else on)
  follow s u (more opcode key payload ∷ ps) r =
      follow s (some (opcode_with u opcode, bytes_with u payload)) ps (pos 0)
  follow s u (ping key payload ∷ ps) r =
      make_fragment mem s payload (length payload) 0x8a >>= (λ sent.
        let on = follow sent.0 u ps sent.1 in
        if is_minus_one sent.1 then ok (sent.0, u, sent.1) else on)
  follow s u (pong key payload ∷ ps) r = follow s u ps (pos 0)

-- A frame that the receiver has room for.
abbrev pub FrameFits : Key → List ℕ → Type 0
FrameFits key payload =
    Octets (key.k0 ∷ key.k1 ∷ key.k2 ∷ key.k3 ∷ [])
    × Octets payload
    × (14 + length payload ≤ 2 ^ 30)

abbrev pub IsData : ℕ → Type 0
IsData opcode = (opcode ≡ ws_opcode_text) ⊎ (opcode ≡ ws_opcode_binary)

-- A message that there is room for; text is UTF-8 as a whole, without NUL.
abbrev pub MessageFits : ℕ → List ℕ → Type 0
MessageFits opcode bytes =
    (length bytes < 2 ^ 30) × (opcode ≡ ws_opcode_text → All IsByte bytes × IsUtf8 bytes)

-- The pieces of a peer that keeps to RFC 6455, within the bounds.
abbrev pub Fits : Unfinished → List Piece → Type 0
Fits u [] = Unit
Fits u (last opcode key payload ∷ ps) =
    FrameFits key payload
    × IsData opcode
    × MessageFits (opcode_with u opcode) (bytes_with u payload)
    × Fits none ps
Fits u (more opcode key payload ∷ ps) =
    FrameFits key payload
    × IsData opcode
    × Fits (some (opcode_with u opcode, bytes_with u payload)) ps
Fits u (ping key payload ∷ ps) = FrameFits key payload × (length payload ≤ 125) × Fits u ps
Fits u (pong key payload ∷ ps) = FrameFits key payload × (length payload ≤ 125) × Fits u ps
