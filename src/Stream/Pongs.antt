-- ===== src/Stream/Pongs.antt =====
-- Pings and pongs behind the frames of an unfinished message, with the default callbacks.
use mathlib.Core.Path.{ap₂}
use libwebsock.Prelude.{
  ℕ, ◌+◌, ◌≤◌, ◌≡◌, refl, ◌∙◌, ap, Bool, true, false, not, ◌&&◌, List, [], ◌∷◌, ◌++◌, arith, length,
  drop, drop-length, take-length, Outcome, ok, fault, exited, ◌>>=◌, >>=-assoc, length-append, ◌==◌,
  leb, pos, ℤ, some, bit_and, if◌then◌else◌,
}
use libwebsock.Memory.{Allocator, read, write}
use libwebsock.Memory.Blocks.{read_seam, take_all}
use libwebsock.Types.{
  ClientState, Callbacks, Frame, Message, Reply, sw_start, ws_opcode_ping, ws_opcode_pong,
  ws_opcode_close,
}
use libwebsock.Fragment.{make_fragment, append_frame, make_room, extended_length}
use libwebsock.Frames.{handle_control_frame, rewind_frame}
use libwebsock.DefaultCallbacks.{default_handlers, control_opcode}
use libwebsock.DefaultCallbacks.Steps.{
  control-control_opcode, control_opcode-ping, onping-make_fragment,
}
use libwebsock.DefaultCallbacks.Carried.{Carries, demasked, demask_in_place-carried}
use libwebsock.Safety.Control.{with_onmessage}

-- A client with the frames that the receiver keeps for it.
abbrev pub shown : ClientState → Bool → List Frame → ClientState
shown s inside chain = record s {
  flags = record s.flags { receiving_fragment = inside };
  current_frame = chain;
}

abbrev pub shown_reply : Bool → List Frame → ClientState × ℤ → Reply
shown_reply inside chain called = ok (shown called.0 inside chain, called.1)

bind_lift {ℓ κ μ} :
    {A : Type ℓ} {B : Type κ} {C : Type μ} (m : Outcome A) (f' : A → Outcome C) (f : A → Outcome B)
    (k : B → Outcome C)
    → ((a : A) → f' a ≡ (f a >>= k))
    → (m >>= f') ≡ ((m >>= f) >>= k)
bind_lift (ok a) f' f k e = e a
bind_lift fault f' f k e = refl
bind_lift exited f' f k e = refl

if_lift {ℓ κ} :
    {A : Type ℓ} {B : Type κ} (t : Bool) (a' b' : Outcome B) (a b : Outcome A) (k : A → Outcome B)
    → a' ≡ (a >>= k)
    → b' ≡ (b >>= k)
    → (if t then a' else b') ≡ ((if t then a else b) >>= k)
if_lift true a' b' a b k e d = e
if_lift false a' b' a b k e d = d

module _ (mem : Allocator) (s : ClientState) (inside : Bool) (chain : List Frame)
    (source payload : List ℕ)
    (same : read source 0 (length payload) ≡ read payload 0 (length payload)) where
  -- The frame writer leaves the frames alone, and reads no more of its source than it is told to.
  append_frame-shown :
      (first small offset : ℕ)
      → append_frame mem (shown s inside chain) source (length payload) first small offset ≡ (
          append_frame mem s payload (length payload) first small offset
          >>= shown_reply inside chain)
  unfolding append_frame make_room
  append_frame-shown first small offset =
      bind_lift (make_room mem s _) _ _ (shown_reply inside chain) (λ room. rw same (
        bind_lift (read payload 0 (length payload)) _ _ (shown_reply inside chain) (λ bytes.
          bind_lift (write room.block room.start (first ∷ small ∷ [])) _ _
            (shown_reply inside chain)
            (λ b1.
              bind_lift (write b1 (room.start + 2) (extended_length small (length payload))) _ _
                (shown_reply inside chain)
                (λ b2.
                  bind_lift (write b2 (room.start + offset) bytes) _ _ (shown_reply inside chain)
                    (λ b3. refl))))))

  make_fragment-shown :
      (first : ℕ)
      → make_fragment mem (shown s inside chain) source (length payload) first
        ≡ (make_fragment mem s payload (length payload) first >>= shown_reply inside chain)
  unfolding make_fragment
  make_fragment-shown first =
      let k = shown_reply inside chain in
      let append = append_frame-shown (bit_and first 0xff) in
      if_lift (s.flags.sent_close_frame && s.flags.received_close_frame) _ _ _ _ k refl (
        if_lift (not s.flags.connected) _ _ _ _ k refl (
          if_lift (leb (length payload) 125) _ _ _ _ k (append (length payload) 2) (
            if_lift (leb (length payload) 0xffff) _ _ _ _ k (append 126 4)
              (if_lift (leb (length payload) 0xfffffff0) _ _ _ _ k (append 127 10) refl))))

read_front :
    (payload free : List ℕ)
    → read (payload ++ free) 0 (length payload) ≡ read payload 0 (length payload)
read_front payload free = rw (
  read_seam 0 (length payload) [] (payload ++ free) refl
      (omega (arith, length-append payload free)),
  read_seam 0 (length payload) [] payload refl (omega arith),
  take-length payload free,
  take_all (length payload) payload (omega arith),
)

-- The frame that the default control callback leaves, ready for the next header.
abbrev pub rewound :
    (f : Frame) (header payload free : List ℕ) → Carries f header payload free → Frame
rewound f header payload free carries = record (demasked f header payload free carries) {
  state = sw_start;
  rawdata_idx = 0;
}

module _ (mem : Allocator) (onmessage : ClientState → Message → Reply) (s : ClientState)
    (inside : Bool) (f : Frame) (earlier : List Frame) (header payload free : List ℕ)
    (carries : Carries f header payload free) (short : length payload ≤ 125)
    (open_side : s.flags.sent_close_frame ≡ false) where
  abbrev cb : Callbacks
  cb = with_onmessage mem (some onmessage)

  rewind_reply : ClientState × ℤ → Reply
  rewind_reply called =
      ok (record called.0 { current_frame = rewind_frame called.0.current_frame }, called.1)

  abbrev at_control : ClientState
  at_control = shown s inside (demasked f header payload free carries ∷ earlier)

  control_called :
      (outcome : Reply)
      → (f.opcode == ws_opcode_close) ≡ false
      → control_opcode (default_handlers mem) at_control (demasked f header payload free carries)
        ≡ outcome
      → handle_control_frame cb (shown s inside (f ∷ earlier)) ≡ (outcome >>= rewind_reply)
  unfolding handle_control_frame rewind_reply
  control_called outcome data_side e =
      ap (λ (m : Reply). m >>= rewind_reply)
        (control-control_opcode (default_handlers mem) (shown s inside (f ∷ earlier)) f
            (demasked f header payload free carries) earlier refl
            (ap (λ b. b && not (f.opcode == ws_opcode_close)) open_side)
            (omega (arith, carries.len)) (demask_in_place-carried f header payload free carries)
          ∙ e)

  pub ping-answered :
      f.opcode ≡ ws_opcode_ping
      → handle_control_frame cb (shown s inside (f ∷ earlier)) ≡ (
          make_fragment mem s payload (length payload) 0x8a
          >>= shown_reply inside (rewound f header payload free carries ∷ earlier))
  unfolding rewind_reply
  ping-answered ping =
      control_called _ (ground (arith, ping)) (
        control_opcode-ping (default_handlers mem) at_control
          (demasked f header payload free carries) ping
        ∙ onping-make_fragment mem at_control (demasked f header payload free carries) earlier refl
        ∙ ap₂ (λ source len. make_fragment mem at_control source len 0x8a)
            (ap (λ n. drop n (header ++ (payload ++ free))) carries.offset
              ∙ drop-length header (payload ++ free))
            carries.len
        ∙ make_fragment-shown mem s inside (demasked f header payload free carries ∷ earlier)
            (payload ++ free) payload (read_front payload free) 0x8a)
      ∙ >>=-assoc (make_fragment mem s payload (length payload) 0x8a) _ rewind_reply

  pub pong-passed :
      f.opcode ≡ ws_opcode_pong
      → handle_control_frame cb (shown s inside (f ∷ earlier))
        ≡ ok (shown s inside (rewound f header payload free carries ∷ earlier), pos 0)
  unfolding rewind_reply control_opcode
  pong-passed pong =
      control_called (ok (at_control, pos 0)) (ground (arith, pong)) (ground (arith, pong))
