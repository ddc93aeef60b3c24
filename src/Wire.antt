-- ===== src/Wire.antt =====
-- The frames of RFC 6455, section 5.2, as a peer writes and reads them: independent of src/.
pub mod RoundTrip
use libwebsock.Prelude.{
  ℕ, zero, suc, ◌+◌, ◌*◌, ◌/◌, ◌%◌, ◌^◌, List, [], ◌∷◌, ◌++◌, Option, none, some, ltb, leb, ◌==◌,
  if◌then◌else◌, length, take, drop, bit_xor,
}

-- A number in `k` bytes, the high byte first.
unfoldable pub big_endian : ℕ → ℕ → List ℕ
big_endian zero n = []
big_endian (suc k) n = big_endian k (n / 256) ++ n % 256 ∷ []

-- The payload length, in its shortest form; `top` is the mask bit, 0 or 128.
unfoldable pub length_field : ℕ → ℕ → List ℕ
unfolding big_endian
length_field top n =
    if leb n 125
    then (top + n) ∷ []
    else if leb n 0xffff
    then (top + 126) ∷ big_endian 2 n
    else (top + 127) ∷ big_endian 8 n

-- An unmasked frame, as a server sends it.
unfoldable pub server_frame : ℕ → List ℕ → List ℕ
unfolding length_field
server_frame first payload = first ∷ length_field 0 (length payload) ++ payload

-- The number that the first `k` bytes hold, after what has been read already.
unfoldable pub read_number : ℕ → ℕ → List ℕ → Option (ℕ × List ℕ)
read_number zero acc bs = some (acc, bs)
read_number (suc k) acc [] = none
read_number (suc k) acc (b ∷ bs) = read_number k (acc * 256 + b) bs

-- A frame that a client reads.
pub record Received : Type 0 where
  pub first : ℕ
  pub payload : List ℕ
  pub rest : List ℕ

abbrev payload_of : ℕ → Option (ℕ × List ℕ) → Option Received
payload_of first none = none
payload_of first (some (n, bs)) =
    if leb n (length bs)
    then some (record { first = first; payload = take n bs; rest = drop n bs })
    else none

-- What a client reads from a byte stream; a masked frame is refused.
unfoldable pub read_server_frame : List ℕ → Option Received
unfolding read_number
read_server_frame [] = none
read_server_frame (first ∷ []) = none
read_server_frame (first ∷ (l ∷ bs)) =
    if leb l 125
    then payload_of first (some (l, bs))
    else if l == 126
    then payload_of first (read_number 2 0 bs)
    else if l == 127
    then payload_of first (read_number 8 0 bs)
    else none

-- A payload masked by a key of four bytes, which is used in turn.
unfoldable pub masked : ℕ → ℕ → ℕ → ℕ → List ℕ → List ℕ
masked k0 k1 k2 k3 [] = []
masked k0 k1 k2 k3 (p ∷ ps) = bit_xor p k0 ∷ masked k1 k2 k3 k0 ps

-- A masked frame, as a client sends it.
unfoldable pub client_frame : ℕ → ℕ → ℕ → ℕ → ℕ → List ℕ → List ℕ
client_frame first k0 k1 k2 k3 payload =
    first ∷ (length_field 128 (length payload) ++ (k0 ∷ k1 ∷ k2 ∷ k3 ∷ masked k0 k1 k2 k3 payload))
