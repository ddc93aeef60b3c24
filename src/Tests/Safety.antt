-- ===== src/Tests/Safety.antt =====
-- The invariant of a client, at concrete inputs.
use libwebsock.Prelude.{
  ℕ, ◌^◌, ◌≡◌, refl, true, ◌&&◌, List, [], ◌∷◌, arith, length-replicate, replicate, some, none, leb,
  ltb, Safely, ℤ, ◌>>=◌, fault,
}
use libwebsock.Memory.{Allocator}
use libwebsock.Types.{ClientState, Frame, Message, Reply, zero_frame, sw_loaded_mask}
use libwebsock.DefaultCallbacks.{default_onmessage_callback, default_control_callback}
use libwebsock.DefaultCallbacks.Pings.{at_frame}
use libwebsock.Receive.{complete}
use libwebsock.Receive.Loop.{go_on}
use libwebsock.Receive.Late.{complete-overflow}
use libwebsock.Safety.{IsBounded, IsWell}
use libwebsock.Safety.Blocks.{Octets-replicate}
use libwebsock.Safety.Sending.{IsSound}
use libwebsock.Safety.Replies.{Leaves}
use libwebsock.Safety.Control.{handlers, default_control_callback-Safely, with_onmessage}
use libwebsock.Tests.Data.{connected_client}

abbrev pub process : Allocator
process = record {
  fits = λ n. leb 1 n && ltb n (2 ^ 31);
  garbage = λ n. replicate n 0;
  length-garbage = λ n. length-replicate n 0;
}

pub process-IsBounded : IsBounded process
process-IsBounded = record {
  granted = λ n fits. (ground (arith, fits), ground (arith, fits));
  bytes = Octets-replicate;
}

pub onmessage_kept :
    (f : ClientState → Message → Reply)
    → some (default_onmessage_callback process) ≡ some f
    → (s : ClientState) (msg : Message) → s.current_frame ≡ []
    → IsSound s.out_data s.close_info
    → Safely (λ (called : ClientState × ℤ). IsWell IsSound called.0) (f s msg)
unfolding default_onmessage_callback
onmessage_kept f e s msg gone sound =
    let same : f ≡ default_onmessage_callback process = cc e in rw (same, gone) (tt, sound)

-- A ping of two bytes that has arrived in a block of 16 bytes.
abbrev ping_held : Frame
ping_held =
    record (zero_frame
      (0x89 ∷ 0x82 ∷ 1 ∷ 2 ∷ 3 ∷ 4 ∷ 6 ∷ 10 ∷ 0 ∷ 0 ∷ 0 ∷ 0 ∷ 0 ∷ 0 ∷ 0 ∷ 0 ∷ [])) {
        fin = 1;
        opcode = 9;
        mask_offset = 2;
        payload_offset = 6;
        rawdata_idx = 8;
        rawdata_sz = 16;
        size = 8;
        payload_len_short = 2;
        payload_len = 2;
        mask = 1 ∷ 2 ∷ 3 ∷ 4 ∷ [];
        state = sw_loaded_mask;
      }

default_control_callback-Safely_example : Safely Leaves (
    default_control_callback
      (handlers process process-IsBounded)
      (at_frame connected_client ping_held []))
default_control_callback-Safely_example =
    default_control_callback-Safely process process-IsBounded connected_client ping_held []
      (record { sized = refl; room = omega arith; bytes = omega arith })
      (
        record {
          bytes = omega arith;
          key = omega arith;
          below = omega arith;
          inside = λ small. omega arith;
        },
        tt,
      )
      (tt, tt)

-- A ping, a text message, and the start of a fragmented message.
abbrev pub arriving : List ℕ
arriving =
    0x89 ∷ 0x82 ∷ 1 ∷ 2 ∷ 3 ∷ 4 ∷ 6 ∷ 10 ∷ 0x81 ∷ 0x81 ∷ 1 ∷ 2 ∷ 3 ∷ 4 ∷ 0x60 ∷ 0x01 ∷ 0x82 ∷ 1 ∷ 2
    ∷ 3 ∷ 4 ∷ 0x60 ∷ []

abbrev closed_client : ClientState
closed_client = record connected_client {
  flags = record connected_client.flags { sent_close_frame = true };
}

-- A text frame of 8 bytes in a block of 16.
abbrev text_held : Frame
text_held = record ping_held {
  opcode = 1;
  rawdata = 0x81 ∷ 0x82 ∷ 1 ∷ 2 ∷ 3 ∷ 4 ∷ 6 ∷ 10 ∷ 0 ∷ 0 ∷ 0 ∷ 0 ∷ 0 ∷ 0 ∷ 0 ∷ 0 ∷ [];
}

complete-overflow_example :
    (complete process (with_onmessage process none) closed_client text_held [] 0
      >>= go_on process (with_onmessage process none) (replicate 9 0))
    ≡ fault
complete-overflow_example =
    complete-overflow process (with_onmessage process none) [] closed_client text_held
      (replicate 9 0) (record { sent = refl; outside = refl; running = refl })
      (record {
        more = 0x82 ∷ 1 ∷ 2 ∷ 3 ∷ 4 ∷ 6 ∷ 10 ∷ 0 ∷ 0 ∷ 0 ∷ 0 ∷ 0 ∷ 0 ∷ 0 ∷ 0 ∷ [];
        first = 0x81;
        block = refl;
        byte = omega arith;
        message = refl;
        loaded = refl;
        whole = omega arith;
        begun = omega arith;
      })
      (omega arith) (omega arith)
