-- ===== src/Tests/Data.antt =====
-- A client, its allocator and frames on which the theorems are tried.
use libwebsock.Prelude.{
  ℕ, ◌+◌, ◌≤◌, refl, true, List, [], ◌∷◌, ◌++◌, none, replicate, length-replicate, length, arith,
}
use libwebsock.Memory.{Allocator}
use libwebsock.Types.{ClientState, Callbacks, Frame, no_flags, zero_frame, sw_loaded_mask}
use libwebsock.Dispatch.{demask}
use libwebsock.Dispatch.Masking.{Octets}
use libwebsock.DefaultCallbacks.{default_callbacks}
use libwebsock.DefaultCallbacks.Carried.{Carries}
use libwebsock.Fragment.Appends.{CanSend}

-- An allocator that grants everything.
abbrev pub ample : Allocator
ample = record {
  fits = λ n. true;
  garbage = λ n. replicate n 0;
  length-garbage = λ n. length-replicate n 0;
}

abbrev pub connected_client : ClientState
connected_client = record {
  flags = record no_flags { connected = true };
  out_data = none;
  current_frame = [];
  close_info = none;
}

abbrev pub fragment_client : ClientState
fragment_client = record connected_client {
  flags = record connected_client.flags { receiving_fragment = true };
}

abbrev pub handlers : Callbacks
handlers = default_callbacks ample

abbrev pub key : List ℕ
key = 1 ∷ 2 ∷ 3 ∷ 4 ∷ []

-- The header of a short frame.
abbrev pub header_of : ℕ → List ℕ → List ℕ
header_of opcode payload = (128 + opcode) ∷ (128 + length payload) ∷ key

-- A short final frame that has arrived in whole.
abbrev pub held : ℕ → List ℕ → Frame
held opcode payload =
    record (zero_frame (header_of opcode payload ++ (demask key 0 payload ++ 0 ∷ []))) {
      fin = 1;
      opcode = opcode;
      mask_offset = 2;
      payload_offset = 6;
      rawdata_idx = 6 + length payload;
      size = 6 + length payload;
      payload_len_short = length payload;
      payload_len = length payload;
      mask = key;
      state = sw_loaded_mask;
    }

pub carried :
    (opcode : ℕ) (payload : List ℕ)
    → Octets payload
    → Carries (held opcode payload) (header_of opcode payload) payload (0 ∷ [])
carried opcode payload octets = record {
  block = refl;
  offset = refl;
  len = refl;
  octets = octets;
  key = omega arith;
}

pub can_send : (n : ℕ) → n ≤ 0xffff → CanSend ample connected_client n
can_send n small = record {
  is_connected = refl;
  is_open = refl;
  supported = omega arith;
  sized = refl;
  below = grind arith;
  granted = refl;
}
