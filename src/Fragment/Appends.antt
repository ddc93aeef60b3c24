-- ===== src/Fragment/Appends.antt =====
-- What `libwebsock_make_fragment` appends, on its three length forms.
use libwebsock.Prelude.{
  ℕ, ◌+◌, ◌-◌, ◌%◌, ◌^◌, ◌≤◌, ◌<◌, ◌≡◌, refl, ◌∙◌, ap, true, false, ◌&&◌, List, [], ◌∷◌, ◌++◌, none,
  some, arith, leb, if◌then◌else◌, Option-cases, inl, inr, length, take, replicate,
  length-replicate, length-take, length-append, bit_and, ok, signed32,
}
use libwebsock.Memory.{Allocator, lws_calloc, lws_realloc}
use libwebsock.Memory.Blocks.{write_three, take_all, read_seam}
use libwebsock.Types.{ClientState}
use libwebsock.Fragment.{make_fragment, append_frame, make_room, extended_length, old_idx, old_size}
use libwebsock.Wire.{server_frame, length_field, big_endian, read_server_frame}
use libwebsock.Wire.RoundTrip.{read_server_frame-server_frame}

-- The bytes that wait to be sent.
abbrev pub outgoing : ClientState → List ℕ
outgoing s = elim s.out_data [ none ↦ [] | some out ↦ out.bytes ]

-- `data_sz` is the size of the block.
abbrev pub IsSized : ClientState → Type 0
IsSized s = old_size s.out_data ≡ length (outgoing s)

-- The state with a frame's bytes appended.
abbrev pub appended : ClientState → List ℕ → ClientState
appended s bytes = record s {
  out_data = some (record {
    bytes = outgoing s ++ bytes;
    idx = old_idx s.out_data;
    data_sz = length (outgoing s) + length bytes;
  });
}

module _ (mem : Allocator) where
  -- The block made for a frame is the old bytes with as many new ones as the frame has.
  pub make_room_lem :
      (s : ClientState) (n : ℕ)
      → IsSized s
      → length (outgoing s) + n < 2 ^ 32
      → mem.fits (length (outgoing s) + n) ≡ true
      → (free : List ℕ) × (length free ≡ n)
        × (make_room mem s n
            ≡ ok (record { block = outgoing s ++ free; start = length (outgoing s) }))
  unfolding make_room lws_calloc lws_realloc
  make_room_lem s n sized small fits = elim (Option-cases s.out_data) [
    | inl e ↦ (replicate n 0, length-replicate n 0, ground arith)
    | inr (w, e) ↦ (
      mem.garbage (w.data_sz + n - length w.bytes),
      ground (arith, mem.length-garbage (w.data_sz + n - length w.bytes)),
      ground (arith, take_all (w.data_sz + n) w.bytes),
    )
  ]

  -- A frame with a matching short length and offset is written in full.
  append_frame_lem :
      (s : ClientState) (source : List ℕ) (len fin_opcode small payload_offset : ℕ)
      → payload_offset ≡ 2 + length (extended_length small len)
      → len ≤ length source
      → payload_offset + len < 2 ^ 32
      → IsSized s
      → length (outgoing s) + (payload_offset + len) < 2 ^ 32
      → mem.fits (length (outgoing s) + (payload_offset + len)) ≡ true
      → append_frame mem s source len fin_opcode small payload_offset
        ≡ ok (
          appended s (fin_opcode ∷ small ∷ extended_length small len ++ take len source),
          signed32 (payload_offset + len),
        )
  unfolding append_frame
  append_frame_lem s source len fin_opcode small payload_offset off have fit32 sized small_sum
        fits =
      let e : (payload_offset + len) % 2 ^ 32 ≡ payload_offset + len = omega arith in
      let (free, lfree, room) = make_room_lem s (payload_offset + len) sized small_sum fits in
      let new : List ℕ = fin_opcode ∷ small ∷ extended_length small len ++ take len source in
      let body : length (take len source) ≡ len = omega (arith, length-take len source) in
      rw (e, room, read_seam 0 len [] source refl have)
        (write_three
            (λ b3. ok (
              record s {
                out_data = some (record {
                  bytes = b3;
                  idx = old_idx s.out_data;
                  data_sz = (old_size s.out_data + (payload_offset + len)) % 2 ^ 32;
                });
              },
              signed32 (payload_offset + len),
            ))
            (length (outgoing s)) (length (outgoing s) + 2) (length (outgoing s) + payload_offset)
            (outgoing s) free (fin_opcode ∷ small ∷ []) (extended_length small len)
            (take len source) refl refl (omega arith) (omega arith)
          ∙ ap
              (λ n. ok (
                record s {
                  out_data =
                      some (record {
                        bytes = outgoing s ++ new;
                        idx = old_idx s.out_data;
                        data_sz = n;
                      });
                },
                signed32 (payload_offset + len),
              ))
              (omega (arith, length-append {0} (extended_length small len) (take len source))))

-- The bytes before the payload, by its length.
abbrev pub header_size : ℕ → ℕ
header_size len = if leb len 125 then 2 else if leb len 0xffff then 4 else 10

-- What `make_fragment` needs to send `len` bytes.
pub record CanSend (mem : Allocator) (s : ClientState) (len : ℕ) : Type 0 where
  pub is_connected : s.flags.connected ≡ true
  pub is_open : (s.flags.sent_close_frame && s.flags.received_close_frame) ≡ false
  pub supported : len ≤ 0xfffffff0
  pub sized : IsSized s
  pub below : length (outgoing s) + (header_size len + len) < 2 ^ 32
  pub granted : mem.fits (length (outgoing s) + (header_size len + len)) ≡ true

pub make_fragment_frame :
    (mem : Allocator) (s : ClientState) (source : List ℕ) (len flags : ℕ)
    → CanSend mem s len
    → len ≤ length source
    → make_fragment mem s source len flags
      ≡ ok (
        appended s (server_frame (bit_and flags 0xff) (take len source)),
        signed32 (header_size len + len),
      )
unfolding make_fragment extended_length server_frame length_field big_endian
make_fragment_frame mem s source len flags can available =
    let body : length (take len source) ≡ len = omega (arith, length-take len source, available) in
    rw (can.is_open, can.is_connected)
      (ground (
        arith,
        append_frame_lem mem s source len (bit_and flags 0xff) len 2,
        append_frame_lem mem s source len (bit_and flags 0xff) 126 4,
        append_frame_lem mem s source len (bit_and flags 0xff) 127 10,
      ))

-- On a connected client that has not both sent and received a close frame, with room for the
-- frame, `make_fragment` returns the frame's size and appends to the outgoing bytes one frame: a
-- client that reads them gets the first byte of the flags and the `len` bytes of the source back,
-- whichever of the three length forms was used, and then what follows. `data_sz` stays the size
-- of the block.
pub make_fragment-read :
    (mem : Allocator) (s : ClientState) (source : List ℕ) (len flags : ℕ) (rest : List ℕ)
    → CanSend mem s len
    → len ≤ length source
    → (frame : List ℕ) × (make_fragment mem s source len flags
        ≡ ok (appended s frame, signed32 (header_size len + len)))
      × (length frame ≡ header_size len + len)
      × (read_server_frame (frame ++ rest)
          ≡ some (record { first = bit_and flags 0xff; payload = take len source; rest = rest }))
      × IsSized (appended s frame)
unfolding server_frame length_field big_endian
make_fragment-read mem s source len flags rest can available =
    let body : length (take len source) ≡ len = omega (arith, length-take len source, available) in
    (
      server_frame (bit_and flags 0xff) (take len source),
      make_fragment_frame mem s source len flags can available,
      ground (arith),
      read_server_frame-server_frame (bit_and flags 0xff) (take len source) rest
          (omega (arith, can.supported)),
      omega (
        arith,
        length-append {0} (outgoing s) (server_frame (bit_and flags 0xff) (take len source)),
      ),
    )
