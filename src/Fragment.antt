-- ===== src/Fragment.antt =====
-- src/websock.c, `libwebsock_make_fragment`: appends one frame to the outgoing data.
pub mod Appends
pub mod Refusals
pub mod Overread
use libwebsock.Prelude.{
  ℕ, ◌+◌, ◌/◌, ◌%◌, ◌^◌, not, ◌&&◌, List, [], ◌∷◌, Option, none, some, bit_and, Outcome, ok, leb,
  ◌==◌, if◌then◌else◌, minus_one, signed32, ◌>>=◌, ◌>>◌,
}
use libwebsock.Memory.{Allocator, read, write, lws_calloc, lws_realloc}
use libwebsock.Types.{WsString, ClientState, Reply}

-- The block that the frame is written to, with where the frame starts in it.
abbrev pub Room : Type 0
Room = record { block : List ℕ; start : ℕ }

-- `idx` and `data_sz` of the outgoing data; a new one is zeroed.
abbrev pub old_idx : Option WsString → ℕ
old_idx none = 0
old_idx (some out) = out.idx

abbrev pub old_size : Option WsString → ℕ
old_size none = 0
old_size (some out) = out.data_sz

-- The extended length after the second byte: `htons`, or four zeros and `htonl`.
unfoldable pub extended_length : ℕ → ℕ → List ℕ
extended_length small len =
    if small == 126
    then (len / 256 % 256) ∷ (len % 256) ∷ []
    else if small == 127
    then 0
      ∷ 0
      ∷ 0
      ∷ 0
      ∷ (len / 2 ^ 24 % 256)
      ∷ (len / 2 ^ 16 % 256)
      ∷ (len / 256 % 256)
      ∷ (len % 256)
      ∷ []
    else []

module _ (mem : Allocator) where
  -- `out_data` is allocated, or extended by `frame_size`; the sum is an `unsigned int`.
  unfoldable pub make_room : ClientState → ℕ → Outcome Room
  make_room s frame_size = elim s.out_data [
    | none ↦ lws_calloc mem frame_size >>= (λ block. ok (record { block = block; start = 0 }))
    | some out ↦
        lws_realloc mem out.bytes ((out.data_sz + frame_size) % 2 ^ 32)
        >>= (λ block. ok (record { block = block; start = out.data_sz }))
  ]

  -- Everything from the allocation on, for a frame with a given short length and payload offset.
  unfoldable pub append_frame : ClientState → List ℕ → ℕ → ℕ → ℕ → ℕ → Reply
  append_frame s source len fin_opcode small payload_offset = do
    let frame_size = (payload_offset + len) % 2 ^ 32
    room ← make_room s frame_size
    payload ← read source 0 len
    b1 ← write room.block room.start (fin_opcode ∷ small ∷ [])
    b2 ← write b1 (room.start + 2) (extended_length small len)
    b3 ← write b2 (room.start + payload_offset) payload
    ok (
      record s {
        out_data = some (record {
          bytes = b3;
          idx = old_idx s.out_data;
          data_sz = (old_size s.out_data + frame_size) % 2 ^ 32;
        });
      },
      signed32 frame_size,
    )

  unfoldable pub make_fragment : ClientState → List ℕ → ℕ → ℕ → Reply
  make_fragment s source len flags =
      if s.flags.sent_close_frame && s.flags.received_close_frame
      then ok (s, minus_one)
      else if not s.flags.connected
      then ok (s, minus_one)
      else if leb len 125
      then append_frame s source len (bit_and flags 0xff) len 2
      else if leb len 0xffff
      then append_frame s source len (bit_and flags 0xff) 126 4
      else if leb len 0xfffffff0
      then append_frame s source len (bit_and flags 0xff) 127 10
      else ok (s, minus_one)
