-- ===== src/Types.antt =====
-- src/types.h, and the constants of src/websock.h: frames, the client's state, its callbacks.
-- Left out: the logger, `hostname`, `supported_sub_protocols` and `context`, which the frame layer
-- does not read, and the string's `length`, which nothing reads.
use libwebsock.Prelude.{ℕ, Bool, false, List, [], ◌∷◌, Option, Outcome, ℤ}

abbrev pub frame_chunk_length : ℕ
frame_chunk_length = 1024

abbrev pub mask_length : ℕ
mask_length = 4

abbrev pub ws_fragment_fin : ℕ
ws_fragment_fin = 0x80

abbrev pub ws_opcode_continue : ℕ
ws_opcode_continue = 0x0

abbrev pub ws_opcode_text : ℕ
ws_opcode_text = 0x1

abbrev pub ws_opcode_binary : ℕ
ws_opcode_binary = 0x2

abbrev pub ws_opcode_close : ℕ
ws_opcode_close = 0x8

abbrev pub ws_opcode_ping : ℕ
ws_opcode_ping = 0x9

abbrev pub ws_opcode_pong : ℕ
ws_opcode_pong = 0xa

abbrev pub ws_close_normal : ℕ
ws_close_normal = 1000

abbrev pub ws_close_protocol_error : ℕ
ws_close_protocol_error = 1002

abbrev pub ws_close_reserved : ℕ
ws_close_reserved = 1004

abbrev pub ws_close_no_code : ℕ
ws_close_no_code = 1005

abbrev pub ws_close_dirty : ℕ
ws_close_dirty = 1006

abbrev pub ws_close_wrong_type : ℕ
ws_close_wrong_type = 1007

-- `enum WS_FRAME_STATE`
pub data FrameState : Type 0 where
  sw_start sw_got_two sw_got_short_len sw_got_full_len sw_loaded_mask : FrameState

-- `libwebsock_frame` without its links: `rawdata` is the block that the pointer holds.
pub record Frame : Type 0 where
  pub fin : ℕ
  pub opcode : ℕ
  pub mask_offset : ℕ
  pub payload_offset : ℕ
  pub rawdata_idx : ℕ
  pub rawdata_sz : ℕ
  pub size : ℕ
  pub payload_len_short : ℕ
  pub payload_len : ℕ
  pub rawdata : List ℕ
  pub mask : List ℕ
  pub state : FrameState

-- `libwebsock_string`: `data_sz` is the count of bytes that the code believes `bytes` to have.
pub record WsString : Type 0 where
  pub bytes : List ℕ
  pub idx : ℕ
  pub data_sz : ℕ

-- `libwebsock_message`
pub record Message : Type 0 where
  pub opcode : ℕ
  pub payload_len : ℕ
  pub payload : List ℕ

-- `libwebsock_close_info`; `reason` is the array of 124 bytes.
pub record CloseInfo : Type 0 where
  pub code : ℕ
  pub reason : List ℕ

-- The bits of `state->flags`, STATE_CONNECTING to STATE_CONTINUOUS_FRAME_IN_PROGRESS.
pub record Flags : Type 0 where
  pub connecting : Bool
  pub connected : Bool
  pub receiving_fragment : Bool
  pub received_close_frame : Bool
  pub sent_close_frame : Bool
  pub processing_error : Bool
  pub needs_more_data : Bool
  pub should_close : Bool
  pub continuous_frame_in_progress : Bool

-- `libwebsock_client_state`. `current_frame` is the chain of frames from the one that the pointer
-- holds back through `prev_frame`, so `[]` is NULL; the `next_frame` links are the same chain
-- read the other way, since a frame is only ever linked behind the current one.
pub record ClientState : Type 0 where
  pub flags : Flags
  pub out_data : Option WsString
  pub current_frame : List Frame
  pub close_info : Option CloseInfo

-- What a callback leaves behind: the state, and its `int`.
abbrev pub Reply : Type 0
Reply = Outcome (ClientState × ℤ)

-- The function pointers of the state; `none` is NULL. They are the application's, or the defaults
-- of `DefaultCallbacks`, and stay the same while data is received.
pub record Callbacks : Type 0 where
  pub onmessage : Option (ClientState → Message → Reply)
  pub oncontrol : Option (ClientState → Reply)
  pub onclose : Option (ClientState → Reply)
  pub onpong : Option (ClientState → Reply)
  pub onping : Option (ClientState → Reply)
  pub onerror : Option (ClientState → ℕ → Reply)

abbrev pub no_flags : Flags
no_flags = record {
  connecting = false;
  connected = false;
  receiving_fragment = false;
  received_close_frame = false;
  sent_close_frame = false;
  processing_error = false;
  needs_more_data = false;
  should_close = false;
  continuous_frame_in_progress = false;
}

-- A frame as `lws_calloc` leaves it, around a block.
abbrev pub zero_frame : List ℕ → Frame
zero_frame block = record {
  fin = 0;
  opcode = 0;
  mask_offset = 0;
  payload_offset = 0;
  rawdata_idx = 0;
  rawdata_sz = frame_chunk_length;
  size = 0;
  payload_len_short = 0;
  payload_len = 0;
  rawdata = block;
  mask = 0 ∷ 0 ∷ 0 ∷ 0 ∷ [];
  state = sw_start;
}
