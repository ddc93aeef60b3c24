-- ===== src/Safety/Allowed.antt =====
-- The frames that `libwebsock_handle_recv` can take without undefined behaviour.
use libwebsock.Prelude.{
  ℕ, zero, suc, ◌^◌, Bool, true, false, ◌&&◌, ◌||◌, not, List, [], ◌∷◌, length, ok, fault, exited,
  ltb, ◌==◌, if◌then◌else◌, ℤ,
}
use libwebsock.Memory.{Allocator}
use libwebsock.Types.{ClientState, Callbacks, Frame}
use libwebsock.Receive.{
  FrameFn, dispatch, control, continuation, fail, null, again, broken, returned, receive_step,
}
use libwebsock.Receive.Table.{table_class}
use libwebsock.Safety.{first_of}

-- The first byte of the frame that the next byte `b` belongs to.
abbrev pub frame_start : List Frame → ℕ → ℕ
frame_start [] b = b
frame_start (f ∷ earlier) b = if f.rawdata_idx == 0 then b else first_of f

-- The functions that the code can take: not the null pointer, and no message once a close frame
-- is sent.
abbrev pub takes : Bool → FrameFn → Bool
takes sent dispatch = not sent
takes sent control = true
takes sent continuation = true
takes sent fail = true
takes sent null = false

-- The code can take the frame that the next byte belongs to, and the chain has less than
-- 2^32 frames.
abbrev pub allowed : ClientState → ℕ → Bool
allowed s b =
    s.flags.processing_error
    || (ltb (length s.current_frame) (2 ^ 32)
        && takes s.flags.sent_close_frame
            (table_class s.flags.receiving_fragment (frame_start s.current_frame b)))

module _ (mem : Allocator) (cb : Callbacks) where
  -- Each byte that an iteration of the loop begins with is allowed.
  unfoldable pub allowed_run : ℕ → ClientState → List ℕ → ℤ → Bool
  allowed_run skip s [] r = true
  allowed_run (suc skip) s (b ∷ bs) r = allowed_run skip s bs r
  allowed_run zero s (b ∷ bs) r = allowed s b && (elim (receive_step mem cb s b bs r) [
    | ok progress ↦ elim progress [
      | again s' skip r' ↦ allowed_run skip s' bs r'
      | broken s' r' ↦ true
      | returned s' r' ↦ true
    ]
    | fault ↦ true
    | exited ↦ true
  ])
