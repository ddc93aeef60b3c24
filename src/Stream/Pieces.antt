-- ===== src/Stream/Pieces.antt =====
-- The receive loop at the frame of one piece: a part of a message, a ping or a pong.
use mathlib.Core.Path.{subst}
use libwebsock.Prelude.{
  ℕ, ◌≤◌, ◌≡◌, inl, inr, refl, ◌∙◌, ap, sym, Bool, true, false, List, ◌∷◌, arith, length, none,
  some, ok, fault, exited, ◌>>=◌, ℤ, pos, is_minus_one, Yields, Bool-cases, if◌then◌else◌,
}
use libwebsock.Memory.{Allocator}
use libwebsock.Types.{ClientState, Callbacks, Message, Reply, frame_chunk_length, zero_frame}
use libwebsock.Fragment.{make_fragment}
use libwebsock.Frames.{new_continuation_frame}
use libwebsock.Receive.{control, frame_fn, receive_loop, after_loop}
use libwebsock.Receive.Table.{table_class}
use libwebsock.Receive.Frames.{after_frame}
use libwebsock.Safety.Control.{with_onmessage}
use libwebsock.Stream.{
  Key, Piece, last, more, ping, pong, first_byte, wire, Unfinished, is_inside, opcode_with,
  bytes_with, completed, Followed, follow, FrameFits, IsData, MessageFits,
}
use libwebsock.Stream.Pongs.{shown, ping-answered, pong-passed, rewound}
use libwebsock.Stream.Handed.{gathered, message_dispatched, data_class, data_opcode}
use libwebsock.Stream.Kept.{make_fragment-IsSettled, rewound-IsFresh}
use libwebsock.Stream.Shown.{IsFresh, Shows, IsSettled, frame_taken}

-- The application keeps the client in order.
abbrev pub Keeps : Allocator → (ClientState → Message → Reply) → Type 0
Keeps mem onmessage =
    (s : ClientState) (msg : Message)
    → IsSettled mem s
    → Yields (λ (called : ClientState × ℤ). IsSettled mem called.0) (onmessage s msg)

module _ (mem : Allocator) (onmessage : ClientState → Message → Reply)
    (keeps : Keeps mem onmessage) where
  abbrev cb : Callbacks
  cb = with_onmessage mem (some onmessage)

  -- A run of the loop ends as the pieces are followed.
  abbrev pub Refines : Followed → Reply → Type 0
  Refines (ok (s, u, r)) reply =
      (c : ClientState) × Shows s u c × (reply ≡ ok (after_loop mem cb c, r))
  Refines fault reply = reply ≡ fault
  Refines exited reply = reply ≡ exited

  same_reply : (m : Reply) → m ≡ (m >>= (λ called. ok (called.0, called.1)))
  same_reply (ok called) = refl
  same_reply fault = refl
  same_reply exited = refl

  -- What comes of one piece is followed by the other pieces, unless it is -1.
  step_refined :
      (m : Reply) (lift : ClientState → ClientState) (u : Unfinished) (ps : List Piece)
      → Yields (λ (called : ClientState × ℤ). IsSettled mem called.0) m
      → ((s : ClientState) → Shows s u (lift s))
      → ((s : ClientState) (r : ℤ)
          → IsSettled mem s
          → Refines
              (follow mem onmessage s u ps r)
              (receive_loop mem cb 0 (lift s) (wire (is_inside u) ps) r))
      → Refines
          (m >>= (λ called.
            if is_minus_one called.1
            then ok (called.0, u, called.1)
            else follow mem onmessage called.0 u ps called.1))
          (m
            >>= (λ called. ok (lift called.0, called.1))
            >>= after_frame mem cb (wire (is_inside u) ps))
  step_refined (ok (s, r)) lift u ps settled shows on = elim (Bool-cases (is_minus_one r)) [
    | inl ends ↦ rw ends (lift s, shows s, refl)
    | inr goes ↦ rw goes (on s r settled)
  ]
  step_refined fault lift u ps settled shows on = refl
  step_refined exited lift u ps settled shows on = refl

  control_class :
      (inside : Bool) → (table_class inside 0x89 ≡ control) × (table_class inside 0x8a ≡ control)
  control_class true = (refl, refl)
  control_class false = (refl, refl)

  -- The frame of a piece reaches the function for its class, and what that comes to goes on.
  module _ (s : ClientState) (settled : IsSettled mem s) (u : Unfinished) (c : ClientState) (r : ℤ)
      (shows : Shows s u c) (ps : List Piece) where
    pub last_refined :
        (opcode : ℕ) (key : Key) (payload : List ℕ)
        → FrameFits key payload
        → IsData opcode
        → MessageFits (opcode_with u opcode) (bytes_with u payload)
        → ((s : ClientState) (r : ℤ)
            → IsSettled mem s
            → Refines
                (follow mem onmessage s none ps r)
                (receive_loop mem cb 0 s (wire false ps) r))
        → Refines
            (follow mem onmessage s u (last opcode key payload ∷ ps) r)
            (receive_loop mem cb 0 c (wire (is_inside u) (last opcode key payload ∷ ps)) r)
    unfolding follow frame_fn
    last_refined opcode key payload fits is_data message on =
        let a = first_byte (is_inside u) (last opcode key payload) in
        let (class, _, byte, _) =
          data_class mem onmessage (is_inside u) opcode key payload is_data in
        let (g, earlier, arrived, stored, taken) =
          frame_taken mem cb s settled u c a key payload (wire false ps) r shows byte fits in
        let whole =
          gathered mem onmessage u g earlier a opcode payload arrived stored
            (λ e. (data_opcode mem onmessage u opcode key payload is_data e).0) in
        subst (Refines (follow mem onmessage s u (last opcode key payload ∷ ps) r))
          (sym (
            taken
            ∙ ap
                (λ fn.
                  frame_fn mem cb fn (shown s (is_inside u) (g ∷ earlier))
                  >>= after_frame mem cb (wire false ps))
                class
            ∙ ap (λ (m : Reply). m >>= after_frame mem cb (wire false ps))
                (message_dispatched mem onmessage s (is_inside u) (g ∷ earlier)
                    (opcode_with u opcode) (bytes_with u payload) settled whole message
                  ∙ same_reply (onmessage s (completed u opcode payload)))))
          (step_refined (onmessage s (completed u opcode payload)) (λ s. s) none ps
            (keeps s (completed u opcode payload) settled) (λ s. inl (refl, refl)) on)

    pub more_refined :
        (opcode : ℕ) (key : Key) (payload : List ℕ)
        → FrameFits key payload
        → IsData opcode
        → ((c : ClientState)
            → Shows s (some (opcode_with u opcode, bytes_with u payload)) c
            → Refines
                (follow mem onmessage s
                  (some (opcode_with u opcode, bytes_with u payload))
                  ps
                  (pos 0))
                (receive_loop mem cb 0 c (wire true ps) (pos 0)))
        → Refines
            (follow mem onmessage s u (more opcode key payload ∷ ps) r)
            (receive_loop mem cb 0 c (wire (is_inside u) (more opcode key payload ∷ ps)) r)
    unfolding follow frame_fn new_continuation_frame
    more_refined opcode key payload fits is_data on =
        let a = first_byte (is_inside u) (more opcode key payload) in
        let (_, class, _, byte) =
          data_class mem onmessage (is_inside u) opcode key payload is_data in
        let (g, earlier, arrived, stored, taken) =
          frame_taken mem cb s settled u c a key payload (wire true ps) r shows byte fits in
        let whole =
          gathered mem onmessage u g earlier a opcode payload arrived stored
            (λ e. (data_opcode mem onmessage u opcode key payload is_data e).1) in
        let fresh : IsFresh (zero_frame (mem.garbage frame_chunk_length)) = record {
          start = refl;
          at_front = refl;
          sized = sym (mem.length-garbage frame_chunk_length);
          room = omega (arith, mem.length-garbage frame_chunk_length);
        } in
        subst (Refines (follow mem onmessage s u (more opcode key payload ∷ ps) r))
          (sym (
            taken
            ∙ ap
                (λ fn.
                  frame_fn mem cb fn (shown s (is_inside u) (g ∷ earlier))
                  >>= after_frame mem cb (wire true ps))
                class))
          (on (shown s true (zero_frame (mem.garbage frame_chunk_length) ∷ g ∷ earlier))
            (inr (zero_frame (mem.garbage frame_chunk_length), g ∷ earlier, fresh, whole, refl)))

    -- A control frame leaves the stored frames and a frame for the next header.
    pub ping_refined :
        (key : Key) (payload : List ℕ)
        → FrameFits key payload
        → length payload ≤ 125
        → ((s : ClientState) (c : ClientState) (r : ℤ)
            → IsSettled mem s
            → Shows s u c
            → Refines
                (follow mem onmessage s u ps r)
                (receive_loop mem cb 0 c (wire (is_inside u) ps) r))
        → Refines
            (follow mem onmessage s u (ping key payload ∷ ps) r)
            (receive_loop mem cb 0 c (wire (is_inside u) (ping key payload ∷ ps)) r)
    unfolding follow frame_fn
    ping_refined key payload fits short on =
        let (g, earlier, arrived, stored, taken) =
          frame_taken mem cb s settled u c 0x89 key payload (wire (is_inside u) ps) r shows
            (omega arith) fits in
        let next = rewound g arrived.header payload arrived.free arrived.carries in
        let shows_next = λ (s : ClientState).
          inr (next, earlier, rewound-IsFresh g 0x89 payload arrived, stored, refl) in
        subst (Refines (follow mem onmessage s u (ping key payload ∷ ps) r))
          (sym (
            taken
            ∙ ap
                (λ fn.
                  frame_fn mem cb fn (shown s (is_inside u) (g ∷ earlier))
                  >>= after_frame mem cb (wire (is_inside u) ps))
                (control_class (is_inside u)).0
            ∙ ap (λ (m : Reply). m >>= after_frame mem cb (wire (is_inside u) ps))
                (ping-answered mem onmessage s (is_inside u) g earlier arrived.header payload
                  arrived.free arrived.carries short settled.idle.open_side arrived.opcode_of)))
          (step_refined (make_fragment mem s payload (length payload) 0x8a)
            (λ s. shown s (is_inside u) (next ∷ earlier)) u ps
            (make_fragment-IsSettled mem s settled payload (length payload) 0x8a) shows_next
            (λ s r settled. on s (shown s (is_inside u) (next ∷ earlier)) r settled (shows_next s)))

    pub pong_refined :
        (key : Key) (payload : List ℕ)
        → FrameFits key payload
        → length payload ≤ 125
        → ((c : ClientState)
            → Shows s u c
            → Refines
                (follow mem onmessage s u ps (pos 0))
                (receive_loop mem cb 0 c (wire (is_inside u) ps) (pos 0)))
        → Refines
            (follow mem onmessage s u (pong key payload ∷ ps) r)
            (receive_loop mem cb 0 c (wire (is_inside u) (pong key payload ∷ ps)) r)
    unfolding follow frame_fn
    pong_refined key payload fits short on =
        let (g, earlier, arrived, stored, taken) =
          frame_taken mem cb s settled u c 0x8a key payload (wire (is_inside u) ps) r shows
            (omega arith) fits in
        let next = rewound g arrived.header payload arrived.free arrived.carries in
        subst (Refines (follow mem onmessage s u (pong key payload ∷ ps) r))
          (sym (
            taken
            ∙ ap
                (λ fn.
                  frame_fn mem cb fn (shown s (is_inside u) (g ∷ earlier))
                  >>= after_frame mem cb (wire (is_inside u) ps))
                (control_class (is_inside u)).1
            ∙ ap (λ (m : Reply). m >>= after_frame mem cb (wire (is_inside u) ps))
                (pong-passed mem onmessage s (is_inside u) g earlier arrived.header payload
                  arrived.free arrived.carries short settled.idle.open_side arrived.opcode_of)))
          (on (shown s (is_inside u) (next ∷ earlier))
            (inr (next, earlier, rewound-IsFresh g 0x8a payload arrived, stored, refl)))
