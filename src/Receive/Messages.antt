-- ===== src/Receive/Messages.antt =====
-- A whole message in one masked frame, from the network to `onmessage`.
use libwebsock.Prelude.{
  ℕ, ◌+◌, ◌^◌, ◌≤◌, ◌≡◌, ◌⊎◌, inl, inr, refl, ◌∙◌, ap, true, false, List, [], ◌∷◌, ◌++◌, arith, All,
  length, replicate, ok, ◌>>=◌, if◌then◌else◌, ◌==◌, minus_one, ℤ, bit_and,
}
use libwebsock.Utf8.Grammar.{IsByte}
use libwebsock.Utf8.Validity.{IsUtf8}
use libwebsock.Memory.{Allocator}
use libwebsock.Types.{ClientState, Callbacks, Frame, Reply}
use libwebsock.Wire.{client_frame}
use libwebsock.Header.Feed.{holding}
use libwebsock.Frames.{no_frames}
use libwebsock.Dispatch.{call_onmessage, dispatch_message, message_opcode, end_fragment}
use libwebsock.Dispatch.Masking.{Octets}
use libwebsock.Dispatch.Messages.{CanDispatch, dispatch_other, dispatch_text}
use libwebsock.DefaultCallbacks.Carried.{frame_payload-carried}
use libwebsock.DefaultCallbacks.Pings.{at_frame}
use libwebsock.Receive.{
  dispatch, set_needs_more, first_frame, frame_fn, receive_loop, receive_step, store_byte,
  copy_payload, complete, handle_recv,
}
use libwebsock.Receive.Table.{table_class}
use libwebsock.Receive.Frames.{after_frame}
use libwebsock.Receive.Arrival.{frame_received}

-- A client between two messages, with memory for the next one.
pub record IsIdle (mem : Allocator) (s : ClientState) : Type 0 where
  pub running : s.flags.processing_error ≡ false
  pub open_side : s.flags.sent_close_frame ≡ false
  pub outside : s.flags.receiving_fragment ≡ false
  pub no_frame : s.current_frame ≡ []
  pub grants : (m : ℕ) → m ≤ 2 ^ 30 → mem.fits m ≡ true

module _ (mem : Allocator) (cb : Callbacks) (s : ClientState) (idle : IsIdle mem s) where
  -- The first byte makes the first frame.
  pub loop_first :
      (b : ℕ) (rest : List ℕ) (r : ℤ)
      → receive_loop mem cb 0 s (b ∷ rest) r
        ≡ receive_loop mem cb 0
            (at_frame s (holding first_frame [] (replicate 1024 0)) [])
            (b ∷ rest)
            r
  unfolding receive_loop receive_step store_byte copy_payload complete
  loop_first b rest r = rw (idle.running, idle.no_frame) refl

pub handle_recv-loop :
    (mem : Allocator) (cb : Callbacks) (s : ClientState) (b : ℕ) (bs : List ℕ)
    → handle_recv mem cb s (b ∷ bs) ≡ receive_loop mem cb 0 s (b ∷ bs) minus_one
unfolding handle_recv
handle_recv-loop mem cb s b bs =
    let e : (length (b ∷ bs) == 0) ≡ false = ground arith in
    ap (λ t. if t then ok (s, minus_one) else receive_loop mem cb 0 s (b ∷ bs) minus_one) e

octets_of : (bs : List ℕ) → All IsByte bs → Octets bs
octets_of [] h = tt
octets_of (b ∷ bs) h = (h.0.1, octets_of bs h.1)

-- The state that a message leaves.
abbrev pub settled : ClientState → ClientState
settled s = no_frames (end_fragment (set_needs_more false s))

module _ (mem : Allocator) (cb : Callbacks) (s : ClientState) (a k0 k1 k2 k3 : ℕ)
    (payload rest : List ℕ) where
  -- What `handle_recv` does with a final data frame in front of the bytes, by what the message
  -- dispatched from its frame does.
  dispatched :
      (outcome : Reply)
      → IsIdle mem s
      → (a ≡ 0x81) ⊎ (a ≡ 0x82)
      → 14 + length payload ≤ 2 ^ 30
      → Octets (k0 ∷ k1 ∷ k2 ∷ k3 ∷ [])
      → Octets payload
      → ((g : Frame)
          → CanDispatch mem cb (at_frame (set_needs_more false s) g []) (payload ∷ [])
          → g.opcode ≡ bit_and a 0xf
          → dispatch_message mem cb (at_frame (set_needs_more false s) g []) ≡ outcome)
      → handle_recv mem cb s (client_frame a k0 k1 k2 k3 payload ++ rest)
        ≡ (outcome >>= after_frame mem cb rest)
  unfolding client_frame frame_fn
  dispatched outcome idle first small key octets handles =
      let (g, arrived, taken) =
        frame_received mem cb s first_frame [] a k0 k1 k2 k3 payload rest minus_one
          (replicate 1024 0)
          (record {
            running = idle.running;
            start = refl;
            sized = refl;
            room = omega arith;
            small = small;
            grants = idle.grants;
          })
          (omega arith) key octets in
      let can : CanDispatch mem cb (at_frame (set_needs_more false s) g []) (payload ∷ []) =
        record {
          open_side = idle.open_side;
          holds = (
            frame_payload-carried g arrived.header payload arrived.free arrived.carries,
            arrived.carries.len,
            tt,
          );
          some_frame = λ e. cc;
          below = omega arith;
          granted = idle.grants (length payload + 1) (omega arith);
        } in
      let class : table_class s.flags.receiving_fragment a ≡ dispatch =
        ap (λ b. table_class b a) idle.outside ∙ data_class first in
      handle_recv-loop mem cb s a _
      ∙ loop_first mem cb s idle _ _ minus_one
      ∙ taken
      ∙ ap
          (λ fn.
            frame_fn mem cb fn (at_frame (set_needs_more false s) g []) >>= after_frame mem cb rest)
          class
      ∙ ap (λ (o : Reply). o >>= after_frame mem cb rest) (handles g can arrived.opcode_of)
    where
      data_class : (a ≡ 0x81) ⊎ (a ≡ 0x82) → table_class false a ≡ dispatch
      data_class (inl e) = rw e refl
      data_class (inr e) = rw e refl

-- The bytes of one masked binary frame that is final, with up to 2^30 - 14 bytes of payload,
-- arrive at a client between two messages, with memory: `onmessage` is called with the payload
-- and opcode 2 and no frame is left; the bytes behind the frame are handled after it, unless
-- `onmessage` returns -1.
pub binary_received :
    (mem : Allocator) (cb : Callbacks) (s : ClientState) (k0 k1 k2 k3 : ℕ) (payload rest : List ℕ)
    → IsIdle mem s
    → 14 + length payload ≤ 2 ^ 30
    → Octets (k0 ∷ k1 ∷ k2 ∷ k3 ∷ [])
    → Octets payload
    → handle_recv mem cb s (client_frame 0x82 k0 k1 k2 k3 payload ++ rest) ≡ (
        call_onmessage cb
          (settled s)
          (record { opcode = 2; payload_len = length payload; payload = payload })
        >>= after_frame mem cb rest)
unfolding message_opcode
binary_received mem cb s k0 k1 k2 k3 payload rest idle small key octets =
    dispatched mem cb s 0x82 k0 k1 k2 k3 payload rest _ idle (inr refl) small key octets
      (λ g can opcode.
        dispatch_other mem cb (at_frame (set_needs_more false s) g []) (payload ∷ []) can
          (λ e. absurd (omega (arith, opcode)))
        ∙ ap
            (λ n.
              call_onmessage cb (settled s)
                (record { opcode = n; payload_len = length payload; payload = payload }))
            opcode)

-- The bytes of one masked text frame that is final, with up to 2^30 - 14 bytes of UTF-8 without
-- NUL, arrive at a client between two messages, with memory: `onmessage` is called with the payload
-- and opcode 1 and no frame is left; the bytes behind the frame are handled after it, unless
-- `onmessage` returns -1.
pub text_received :
    (mem : Allocator) (cb : Callbacks) (s : ClientState) (k0 k1 k2 k3 : ℕ) (payload rest : List ℕ)
    → IsIdle mem s
    → 14 + length payload ≤ 2 ^ 30
    → Octets (k0 ∷ k1 ∷ k2 ∷ k3 ∷ [])
    → All IsByte payload
    → IsUtf8 payload
    → handle_recv mem cb s (client_frame 0x81 k0 k1 k2 k3 payload ++ rest) ≡ (
        call_onmessage cb
          (settled s)
          (record { opcode = 1; payload_len = length payload; payload = payload })
        >>= after_frame mem cb rest)
unfolding message_opcode
text_received mem cb s k0 k1 k2 k3 payload rest idle small key bytes valid =
    dispatched mem cb s 0x81 k0 k1 k2 k3 payload rest _ idle (inl refl) small key
      (octets_of payload bytes)
      (λ g can opcode.
        dispatch_text mem cb (at_frame (set_needs_more false s) g []) (payload ∷ []) can opcode
          bytes valid
        ∙ ap
            (λ n.
              call_onmessage cb (settled s)
                (record { opcode = n; payload_len = length payload; payload = payload }))
            opcode)
