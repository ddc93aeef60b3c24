-- ===== src/Fragment/Overread.antt =====
-- `libwebsock_make_fragment` trusts `len`: what a shorter source does.
use libwebsock.Prelude.{ℕ, ◌+◌, ◌%◌, ◌^◌, ◌<◌, ◌≡◌, true, List, arith, length, fault, bit_and}
use libwebsock.Memory.{Allocator, read}
use libwebsock.Types.{ClientState}
use libwebsock.Fragment.{make_fragment, append_frame}
use libwebsock.Fragment.Appends.{CanSend, IsSized, outgoing, make_room_lem}

module _ (mem : Allocator) (s : ClientState) (source : List ℕ) (len : ℕ)
    (short : length source < len) where
  append_frame-fault :
      (fin_opcode small payload_offset : ℕ)
      → payload_offset + len < 2 ^ 32
      → IsSized s
      → length (outgoing s) + (payload_offset + len) < 2 ^ 32
      → mem.fits (length (outgoing s) + (payload_offset + len)) ≡ true
      → append_frame mem s source len fin_opcode small payload_offset ≡ fault
  unfolding append_frame read
  append_frame-fault fin_opcode small payload_offset fit32 sized below granted =
      let e : (payload_offset + len) % 2 ^ 32 ≡ payload_offset + len = omega arith in
      let (free, lfree, room) = make_room_lem mem s (payload_offset + len) sized below granted in
      rw (e, room) (ground (arith))

  -- A `len` beyond the source reads outside it.
  pub make_fragment-fault :
      (flags : ℕ) → CanSend mem s len → make_fragment mem s source len flags ≡ fault
  unfolding make_fragment
  make_fragment-fault flags can =
      rw (can.is_open, can.is_connected)
        (ground (
          arith,
          append_frame-fault (bit_and flags 0xff) len 2,
          append_frame-fault (bit_and flags 0xff) 126 4,
          append_frame-fault (bit_and flags 0xff) 127 10,
        ))
