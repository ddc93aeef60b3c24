-- ===== src/Safety.antt =====
-- What keeps `libwebsock_handle_recv` (src/websock.c) inside its objects: the invariant of a client.
pub mod Blocks
pub mod Header
pub mod Text
pub mod Frames
pub mod Allowed
pub mod Steps
pub mod Loop
pub mod Sending
pub mod Payload
pub mod Replies
pub mod Control
use libwebsock.Prelude.{
  ℕ, ◌+◌, ◌^◌, ◌≤◌, ◌<◌, ◌≡◌, Bool, true, List, [], ◌∷◌, All, Option, some, length, get_or, Safely,
  ℤ,
}
use libwebsock.Memory.{Allocator}
use libwebsock.Types.{
  ClientState, Callbacks, Message, Reply, Frame, FrameState, WsString, CloseInfo, sw_start,
  sw_got_two, sw_got_short_len, sw_got_full_len, sw_loaded_mask,
}
use libwebsock.Dispatch.Masking.{Octets}

-- Under a limit of memory: `size_t` has 64 bits, and a request of 2^31 bytes or more gives NULL, as
-- under `RLIMIT_AS`; so does `realloc` to 0 bytes. What a block holds before it is written is bytes.
pub record IsBounded (mem : Allocator) : Type 0 where
  pub granted : (n : ℕ) → mem.fits n ≡ true → (0 < n) × (n < 2 ^ 31)
  pub bytes : (n : ℕ) → Octets (mem.garbage n)

-- `rawdata_sz` is the size of the block, which has room for any header.
pub record IsBlock (f : Frame) : Type 0 where
  pub sized : f.rawdata_sz ≡ length f.rawdata
  pub room : 14 ≤ length f.rawdata
  pub bytes : Octets f.rawdata

-- The payload of a frame is inside its block, unless the peer claims 2^31 bytes or more, and its
-- key is bytes.
pub record IsDone (f : Frame) : Type 0 where
  pub bytes : Octets f.rawdata
  pub key : Octets f.mask
  pub below : f.payload_len < 2 ^ 32
  pub inside : f.payload_len < 2 ^ 31 → f.payload_offset + f.payload_len ≤ length f.rawdata

-- A frame that waits for its next byte, by its state.
abbrev pub IsOpenAt : FrameState → Frame → Type 0
IsOpenAt sw_start f = f.rawdata_idx < 2
IsOpenAt sw_got_two f = ⊥
IsOpenAt sw_got_short_len f =
    (0 < f.rawdata_idx) × (f.rawdata_idx < 10) × (f.mask_offset ≡ 2) × (f.payload_len_short < 128)
IsOpenAt sw_got_full_len f =
    (0 < f.rawdata_idx)
    × (f.rawdata_idx < f.payload_offset)
    × (f.payload_offset ≡ f.mask_offset + 4)
    × (f.payload_offset ≤ 14)
    × (f.payload_len < 2 ^ 32)
IsOpenAt sw_loaded_mask f =
    (0 < f.rawdata_idx) × (f.rawdata_idx < f.size) × (f.size ≤ length f.rawdata) × IsDone f

abbrev pub IsOpen : Frame → Type 0
IsOpen f = IsOpenAt f.state f

-- The current frame waits for a byte, and the frames before it are done.
abbrev pub IsWellChain : List Frame → Type 0
IsWellChain [] = Unit
IsWellChain (f ∷ earlier) = IsBlock f × IsOpen f × All IsDone earlier

-- The current frame can be made ready for another header.
abbrev pub IsRewindable : List Frame → Type 0
IsRewindable [] = Unit
IsRewindable (f ∷ earlier) = IsBlock f × All IsDone earlier

-- The first byte of a frame.
abbrev pub first_of : Frame → ℕ
first_of f = get_or f.rawdata 0 0

-- A property of what the application's side of a client holds: the bytes to be sent and the close
-- information. The receive loop itself does not touch them.
abbrev pub Holding : Type 1
Holding = Option WsString → Option CloseInfo → Type 0

abbrev pub IsWell : Holding → ClientState → Type 0
IsWell J s = IsWellChain s.current_frame × J s.out_data s.close_info

-- What the receive loop asks of the callbacks. `onmessage` is called when the frames are gone,
-- `oncontrol` with a frame that is done; after `onerror` the frames are freed.
pub record KeepsSafe (J : Holding) (cb : Callbacks) : Type 0 where
  pub message :
      (onmessage : ClientState → Message → Reply)
      → cb.onmessage ≡ some onmessage
      → (s : ClientState) (msg : Message) → s.current_frame ≡ []
      → J s.out_data s.close_info
      → Safely (λ (called : ClientState × ℤ). IsWell J called.0) (onmessage s msg)
  pub has_control : (oncontrol : ClientState → Reply) × (cb.oncontrol ≡ some oncontrol)
  pub control :
      (oncontrol : ClientState → Reply)
      → cb.oncontrol ≡ some oncontrol
      → (s : ClientState) (f : Frame) (earlier : List Frame) → s.current_frame ≡ f ∷ earlier
      → IsBlock f
      → IsDone f
      → All IsDone earlier
      → J s.out_data s.close_info
      → Safely
          (λ (called : ClientState × ℤ).
            IsRewindable called.0.current_frame × J called.0.out_data called.0.close_info)
          (oncontrol s)
  pub failure :
      (onerror : ClientState → ℕ → Reply)
      → cb.onerror ≡ some onerror
      → (s : ClientState) (code : ℕ) → J s.out_data s.close_info
      → Safely
          (λ (called : ClientState × ℤ). J called.0.out_data called.0.close_info)
          (onerror s code)
