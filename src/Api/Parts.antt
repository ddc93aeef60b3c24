-- ===== src/Api/Parts.antt =====
-- A message sent in parts: the functions for its first, its further and its last frame.
use libwebsock.Prelude.{
  ℕ, ◌+◌, ◌^◌, ◌≤◌, ◌<◌, ◌≡◌, refl, ◌∙◌, ap, sym, Bool, true, false, ◌&&◌, List, [], ◌∷◌, ◌++◌,
  append_assoc, arith, some, length, length-append, ok, ◌>>=◌, ℤ, minus_one, if◌then◌else◌,
  signed32, bit_and,
}
use libwebsock.Memory.{Allocator}
use libwebsock.Memory.Blocks.{take_all}
use libwebsock.Types.{ClientState, Reply}
use libwebsock.Wire.{server_frame, length_field, big_endian, read_server_frame}
use libwebsock.Wire.RoundTrip.{read_server_frame-server_frame}
use libwebsock.Fragment.{make_fragment}
use libwebsock.Fragment.Appends.{IsSized, appended, outgoing, header_size, make_fragment_frame}
use libwebsock.Api.{
  make_text_data_frame_with_length, make_binary_data_frame,
  make_init_text_continuation_frame_with_length, make_init_binary_continuation_frame_with_length,
  make_text_continuation_frame_with_length, make_binary_continuation_frame_with_length,
  make_end_text_continuation_frame_with_length, make_end_binary_continuation_frame_with_length,
}

-- The frames that a client reads from bytes, by first byte and payload, and what is left of them.
abbrev pub Reads : List ℕ → List (ℕ × List ℕ) → List ℕ → Type 0
Reads bytes [] rest = bytes ≡ rest
Reads bytes ((first, payload) ∷ frames) rest =
    (behind : List ℕ) × (read_server_frame bytes
      ≡ some (record { first = first; payload = payload; rest = behind }))
    × Reads behind frames rest

-- How many bytes the frames of the parts have at most.
abbrev pub room_for : List (List ℕ) → ℕ
room_for [] = 0
room_for (p ∷ ps) = 10 + length p + room_for ps

-- A client that may send, and room for a number of bytes.
pub record HasRoom (mem : Allocator) (s : ClientState) (n : ℕ) : Type 0 where
  pub is_connected : s.flags.connected ≡ true
  pub is_open : (s.flags.sent_close_frame && s.flags.received_close_frame) ≡ false
  pub sized : IsSized s
  pub below : length (outgoing s) + n ≤ 0xfffffff0
  pub grants : (m : ℕ) → m ≤ 0xfffffff0 → mem.fits m ≡ true

length-server_frame :
    (first : ℕ) (part : List ℕ) → length (server_frame first part) ≤ 10 + length part
unfolding server_frame length_field big_endian
length-server_frame first part = ground arith

module _ (mem : Allocator) where
  -- One frame, and the room that is left.
  frame_sent :
      (s : ClientState) (part : List ℕ) (flags n : ℕ)
      → HasRoom mem s (10 + length part + n)
      → (make_fragment mem s part (length part) flags
          ≡ ok (
            appended s (server_frame (bit_and flags 0xff) part),
            signed32 (header_size (length part) + length part),
          ))
        × HasRoom mem (appended s (server_frame (bit_and flags 0xff) part)) n
  frame_sent s part flags n room =
      let frame = server_frame (bit_and flags 0xff) part in
      let total = length-append {0} (outgoing s) frame in
      let few = length-server_frame (bit_and flags 0xff) part in
      let header : header_size (length part) ≤ 10 = ground arith in
      (
        make_fragment_frame mem s part (length part) flags
              (record {
                is_connected = room.is_connected;
                is_open = room.is_open;
                supported = omega (arith, room.below);
                sized = room.sized;
                below = omega (arith, room.below, header);
                granted = room.grants _ (omega (arith, room.below, header));
              })
              (omega arith)
            ∙ rw (take_all (length part) part (omega arith)) refl,
        record {
          is_connected = room.is_connected;
          is_open = room.is_open;
          sized = sym total;
          below = omega (arith, room.below, total, few);
          grants = room.grants;
        },
      )

  -- The calls for the further parts and the last one.
  abbrev further : Bool → ClientState → List ℕ → Reply
  further text s part =
      if text
      then make_text_continuation_frame_with_length mem s part (length part)
      else make_binary_continuation_frame_with_length mem s part (length part)

  abbrev ending : Bool → ClientState → List ℕ → Reply
  ending text s part =
      if text
      then make_end_text_continuation_frame_with_length mem s part (length part)
      else make_end_binary_continuation_frame_with_length mem s part (length part)

  abbrev pub send_further : Bool → ClientState → List (List ℕ) → List ℕ → Reply
  send_further text s [] final = ending text s final
  send_further text s (p ∷ ps) final =
      further text s p >>= (λ sent. send_further text sent.0 ps final)

  abbrev pub beginning : Bool → ClientState → List ℕ → Reply
  beginning text s part =
      if text
      then make_init_text_continuation_frame_with_length mem s part (length part)
      else make_init_binary_continuation_frame_with_length mem s part (length part)

  -- The frames of the further parts and the last one.
  abbrev pub frames_of : List (List ℕ) → List ℕ → List (ℕ × List ℕ)
  frames_of [] final = (0x80, final) ∷ []
  frames_of (p ∷ ps) final = (0x00, p) ∷ frames_of ps final

  -- What a call adds to what is to be sent: frames that a client reads, in front of what follows
  -- them, with no message in progress behind them.
  abbrev pub Sends : List ℕ → ClientState → List (ℕ × List ℕ) → Reply → Type 0
  Sends rest s frames reply =
      (s' : ClientState) × (r : ℤ) × (bytes : List ℕ) × (reply ≡ ok (s', r))
      × (outgoing s' ≡ outgoing s ++ bytes)
      × Reads (bytes ++ rest) frames rest
      × (s'.flags.continuous_frame_in_progress ≡ false)

  abbrev pub in_progress : Bool → ClientState → ClientState
  in_progress b s = record s { flags = record s.flags { continuous_frame_in_progress = b } }

  ending-fragment :
      (text : Bool) (s : ClientState) (p : List ℕ)
      → ending text s p ≡ make_fragment mem (in_progress false s) p (length p) 0x80
  unfolding make_end_text_continuation_frame_with_length
      make_end_binary_continuation_frame_with_length
  ending-fragment true s p = refl
  ending-fragment false s p = refl

  further-fragment :
      (text : Bool) (s : ClientState) (p : List ℕ)
      → further text s p ≡ make_fragment mem s p (length p) 0x00
  unfolding make_text_continuation_frame_with_length make_binary_continuation_frame_with_length
  further-fragment true s p = refl
  further-fragment false s p = refl

  beginning-fragment :
      (text : Bool) (s : ClientState) (p : List ℕ)
      → beginning text s p
        ≡ make_fragment mem (in_progress true s) p (length p) (if text then 0x01 else 0x02)
  unfolding make_init_text_continuation_frame_with_length
      make_init_binary_continuation_frame_with_length
  beginning-fragment true s p = refl
  beginning-fragment false s p = refl

  less_room :
      (s : ClientState) (b : Bool) (m n : ℕ)
      → n ≤ m
      → HasRoom mem s m
      → HasRoom mem (in_progress b s) n
  less_room s b m n less room = record {
    is_connected = room.is_connected;
    is_open = room.is_open;
    sized = room.sized;
    below = omega (arith, room.below);
    grants = room.grants;
  }

  -- A frame in front of frames.
  first_read :
      (first : ℕ) (p bytes rest : List ℕ) (frames : List (ℕ × List ℕ))
      → length p < 2 ^ 32
      → Reads (bytes ++ rest) frames rest
      → Reads ((server_frame first p ++ bytes) ++ rest) ((first, p) ∷ frames) rest
  first_read first p bytes rest frames small reads = (
    bytes ++ rest,
    ap read_server_frame (append_assoc (server_frame first p) bytes rest)
        ∙ read_server_frame-server_frame first p (bytes ++ rest) small,
    reads,
  )

  further_sent :
      (text : Bool) (rest : List ℕ) (ps : List (List ℕ)) (final : List ℕ) (s : ClientState)
      → HasRoom mem s (room_for (final ∷ ps))
      → Sends rest s (frames_of ps final) (send_further text s ps final)
  further_sent text rest [] final s room =
      let frame = server_frame 0x80 final in
      let (sent, _) =
        frame_sent (in_progress false s) final 0x80 0 (less_room s false _ _ (omega arith) room) in
      (
        appended (in_progress false s) frame,
        _,
        frame,
        ending-fragment text s final ∙ sent,
        refl,
        (rest, read_server_frame-server_frame 0x80 final rest (omega (arith, room.below)), refl),
        refl,
      )
  further_sent text rest (p ∷ ps) final s room =
      let frame = server_frame 0x00 p in
      let (sent, room_left) =
        frame_sent s p 0x00 (room_for (final ∷ ps))
          (less_room s s.flags.continuous_frame_in_progress _ _ (omega arith) room) in
      let (s', r, bytes, e, out, reads, ended) =
        further_sent text rest ps final (appended s frame) room_left in
      (
        s',
        r,
        frame ++ bytes,
        ap (λ (m : Reply). m >>= (λ sent. send_further text sent.0 ps final))
              (further-fragment text s p ∙ sent)
            ∙ e,
        out ∙ append_assoc (outgoing s) frame bytes,
        first_read 0x00 p bytes rest (frames_of ps final) (omega (arith, room.below)) reads,
        ended,
      )

  abbrev pub first_opcode : Bool → ℕ
  first_opcode text = if text then 0x01 else 0x02

  begun :
      (text : Bool) (s : ClientState) (part : List ℕ) (n : ℕ)
      → HasRoom mem s (10 + length part + n)
      → (beginning text s part
          ≡ ok (
            appended (in_progress true s) (server_frame (first_opcode text) part),
            signed32 (header_size (length part) + length part),
          ))
        × HasRoom mem (appended (in_progress true s) (server_frame (first_opcode text) part)) n
  begun true s part n room =
      let (sent, left) =
        frame_sent (in_progress true s) part 0x01 n (less_room s true _ _ (omega arith) room) in
      (beginning-fragment true s part ∙ sent, left)
  begun false s part n room =
      let (sent, left) =
        frame_sent (in_progress true s) part 0x02 n (less_room s true _ _ (omega arith) room) in
      (beginning-fragment false s part ∙ sent, left)

  -- On a connected client that has not both sent and received a close frame, with memory and room
  -- for all frames, a message is sent in a first part, any number of further ones and a last one,
  -- as text or as binary: a client that reads what was added gets one frame for each part, the
  -- first with the opcode, the others as continuations, FIN on the last alone, and then what
  -- follows. Behind the first part no whole message is taken: both functions for them return -1
  -- and leave the client as it is. Behind the last one no message is in progress.
  pub parts_sent :
      (text : Bool) (rest part : List ℕ) (ps : List (List ℕ)) (final : List ℕ) (s : ClientState)
      (other : List ℕ) (n : ℕ)
      → HasRoom mem s (room_for (part ∷ final ∷ ps))
      → Sends rest s
          ((first_opcode text, part) ∷ frames_of ps final)
          (beginning text s part >>= (λ begun. send_further text begun.0 ps final))
        × ((beginning text s part
              >>= (λ begun. make_text_data_frame_with_length mem begun.0 other n))
            ≡ (beginning text s part >>= (λ begun. ok (begun.0, minus_one))))
        × ((beginning text s part >>= (λ begun. make_binary_data_frame mem begun.0 other n))
            ≡ (beginning text s part >>= (λ begun. ok (begun.0, minus_one))))
  unfolding make_text_data_frame_with_length make_binary_data_frame
  parts_sent text rest part ps final s other n room =
      let frame = server_frame (first_opcode text) part in
      let (sent, left) = begun text s part (room_for (final ∷ ps)) room in
      let (s', r, bytes, e, out, reads, ended) =
        further_sent text rest ps final (appended (in_progress true s) frame) left in
      (
        (
          s',
          r,
          frame ++ bytes,
          ap (λ (m : Reply). m >>= (λ begun. send_further text begun.0 ps final)) sent ∙ e,
          out ∙ append_assoc (outgoing s) frame bytes,
          first_read (first_opcode text) part bytes rest (frames_of ps final)
              (omega (arith, room.below)) reads,
          ended,
        ),
        rw sent refl,
        rw sent refl,
      )
