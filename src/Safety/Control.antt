-- ===== src/Safety/Control.antt =====
-- The callbacks of src/default_callbacks.c keep the invariant of a client.
use mathlib.Core.Path.{subst}
use libwebsock.Prelude.{
  sym, ℕ, ◌≡◌, refl, not, ◌&&◌, List, [], ◌∷◌, arith, All, Option, none, some, ok, ◌>>=◌, Safely,
  >>=-Safely, Safely-weaken, ltb, leb, if◌then◌else◌, ◌==◌, Bool-cases, inl, inr, ℤ, pos, minus_one,
}
use libwebsock.Memory.{Allocator}
use libwebsock.Types.{
  ClientState, Callbacks, CloseInfo, Frame, Message, Reply, ws_opcode_close, ws_opcode_ping,
  ws_opcode_pong, ws_close_protocol_error,
}
use libwebsock.Utf8.{validate_utf8_sequence}
use libwebsock.Frames.{error, fail_and_cleanup, populate_close_info_from_frame}
use libwebsock.DefaultCallbacks.{
  bad_close_code, demask_in_place, with_received_close, acknowledge_close, check_close_info,
  recorded_close_info, handle_close, control_opcode, default_control_callback,
  default_onclose_callback, default_handlers, default_callbacks,
}
use libwebsock.DefaultCallbacks.Pings.{at_frame}
use libwebsock.Safety.{IsBounded, IsBlock, IsDone, IsWell, KeepsSafe}
use libwebsock.Safety.Text.{validate_utf8_sequence-Safely}
use libwebsock.Safety.Frames.{Failed, error-Safely, fail_and_cleanup-Failed}
use libwebsock.Safety.Sending.{IsSound, IsSoundInfo}
use libwebsock.Safety.Payload.{IsControl, demask_in_place-Safely, populate_close_info-Safely}
use libwebsock.Safety.Replies.{
  Leaves, default_onerror-FailsSafe, Failed→Leaves, default_onclose-Safely, default_onping-Safely,
}

-- The callbacks that `libwebsock_client_init` sets, around the application's `onmessage`.
abbrev pub with_onmessage : Allocator → Option (ClientState → Message → Reply) → Callbacks
with_onmessage mem onmessage = record (default_callbacks mem) { onmessage = onmessage }

module _ (mem : Allocator) (bounded : IsBounded mem) where
  abbrev pub handlers : Callbacks
  handlers = default_handlers mem

  failed :
      (s : ClientState) (code : ℕ)
      → IsSound s.out_data s.close_info
      → Safely Leaves (error handlers s code)
  failed s code sound =
      Safely-weaken (Failed handlers IsSound) Leaves (error handlers s code)
        (error-Safely handlers IsSound (default_onerror-FailsSafe mem bounded handlers refl) s code
          sound)
        (Failed→Leaves mem bounded handlers)

  failed_and_closed :
      (s : ClientState)
      → IsSound s.out_data s.close_info
      → Safely Leaves (fail_and_cleanup handlers s)
  failed_and_closed s sound =
      Safely-weaken (Failed handlers IsSound) Leaves (fail_and_cleanup handlers s)
        (fail_and_cleanup-Failed handlers IsSound
          (default_onerror-FailsSafe mem bounded handlers refl) s sound)
        (Failed→Leaves mem bounded handlers)

  acknowledge_close-Safely :
      (s : ClientState) → Leaves (s, pos 0) → Safely Leaves (acknowledge_close handlers s)
  unfolding acknowledge_close
  acknowledge_close-Safely s leaves = elim (Bool-cases s.flags.sent_close_frame) [
    | inl sent ↦
        subst
          (λ t.
            Safely Leaves (
              if t
              then ok (s, minus_one)
              else default_onclose_callback mem (with_received_close s)))
          (sym sent) leaves
    | inr unsent ↦
        subst
          (λ t.
            Safely Leaves (
              if t
              then ok (s, minus_one)
              else default_onclose_callback mem (with_received_close s)))
          (sym unsent) (default_onclose-Safely mem bounded (with_received_close s) leaves)
  ]

  check_close_info-Safely :
      (s : ClientState) → Leaves (s, pos 0) → Safely Leaves (check_close_info handlers s)
  unfolding check_close_info
  check_close_info-Safely s leaves = at s.close_info leaves.1.1
    where
      at :
          (o : Option CloseInfo)
          → IsSoundInfo o
          → Safely Leaves (elim o [
            | none ↦ acknowledge_close handlers s
            | some info ↦
                if bad_close_code info.code
                then error handlers s ws_close_protocol_error
                else (validate_utf8_sequence info.reason >>= (λ valid.
                    if valid then acknowledge_close handlers s else fail_and_cleanup handlers s))
          ])
      at none sound = acknowledge_close-Safely s leaves
      at (some info) nul = elim (Bool-cases (bad_close_code info.code)) [
        | inl bad ↦ rw bad (failed s ws_close_protocol_error leaves.1)
        | inr good ↦ rw good (
            >>=-Safely (λ valid. Unit {0}) Leaves (validate_utf8_sequence info.reason) _
              (validate_utf8_sequence-Safely 123 info.reason nul)
              (λ valid any. elim (Bool-cases valid) [
                | inl accepted ↦ rw accepted (acknowledge_close-Safely s leaves)
                | inr rejected ↦ rw rejected (failed_and_closed s leaves.1)
              ]))
      ]

  recorded_close_info-Safely :
      (s : ClientState) (f : Frame)
      → IsSoundInfo s.close_info
      → IsControl f
      → Safely IsSoundInfo (recorded_close_info handlers s f)
  unfolding recorded_close_info
  recorded_close_info-Safely s f sound is = at s.close_info sound
    where
      at :
          (o : Option CloseInfo)
          → IsSoundInfo o
          → Safely IsSoundInfo (elim o [
            | some info ↦ ok (some info)
            | none ↦ if leb 2 f.payload_len then populate_close_info_from_frame none f else ok none
          ])
      at (some info) nul = nul
      at none any = elim (Bool-cases (leb 2 f.payload_len)) [
        | inl long ↦ rw long (populate_close_info-Safely f is (ground (arith, long)))
        | inr short ↦ rw short tt
      ]

  handle_close-Safely :
      (s : ClientState) (f : Frame)
      → IsControl f
      → Leaves (s, pos 0)
      → Safely Leaves (handle_close handlers s f)
  unfolding handle_close
  handle_close-Safely s f is leaves = elim (Bool-cases (f.payload_len == 1)) [
    | inl one ↦ rw one (failed_and_closed s leaves.1)
    | inr other ↦ rw other (
        >>=-Safely IsSoundInfo Leaves (recorded_close_info handlers s f) _
          (recorded_close_info-Safely s f leaves.1.1 is)
          (λ info sound.
            check_close_info-Safely (record s { close_info = info })
              (leaves.0, (leaves.1.0, sound))))
  ]

  control_opcode-Safely :
      (s : ClientState) (f : Frame) (earlier : List Frame)
      → IsControl f
      → All IsDone earlier
      → IsSound s.out_data s.close_info
      → Safely Leaves (control_opcode handlers (at_frame s f earlier) f)
  unfolding control_opcode
  control_opcode-Safely s f earlier is done sound =
      elim (Bool-cases (f.opcode == ws_opcode_close)) [
        | inl close ↦
            rw close (handle_close-Safely (at_frame s f earlier) f is ((is.block, done), sound))
        | inr other ↦ rw other (elim (Bool-cases (f.opcode == ws_opcode_ping)) [
          | inl ping ↦ rw ping (default_onping-Safely mem bounded s f earlier is done sound)
          | inr other ↦ rw other (elim (Bool-cases (f.opcode == ws_opcode_pong)) [
            | inl pong ↦ rw pong ((is.block, done), sound)
            | inr unknown ↦ rw unknown (failed (at_frame s f earlier) ws_close_protocol_error sound)
          ])
        ])
      ]

  -- With a `size_t` of 64 bits and an allocator that grants no request of 0 bytes and none of 2^31
  -- bytes or more, the default control callback has no undefined behaviour on a client
  -- whose outgoing data and close information are sound and whose current frame is done: they are
  -- sound again when it returns, and the frames are gone or the current one can be rewound.
  pub default_control_callback-Safely :
      (s : ClientState) (f : Frame) (earlier : List Frame)
      → IsBlock f
      → All IsDone (f ∷ earlier)
      → IsSound s.out_data s.close_info
      → Safely Leaves (default_control_callback handlers (at_frame s f earlier))
  unfolding default_control_callback
  default_control_callback-Safely s f earlier block (now, before) sound =
      elim (Bool-cases (s.flags.sent_close_frame && not (f.opcode == ws_opcode_close))) [
        | inl ignored ↦
            subst (λ t. Safely Leaves (if t then ok (at_frame s f earlier, pos 0) else rest))
              (sym ignored) ((block, before), sound)
        | inr heard ↦
            subst (λ t. Safely Leaves (if t then ok (at_frame s f earlier, pos 0) else rest))
              (sym heard)
              (elim (Bool-cases (ltb 125 f.payload_len)) [
                | inl long ↦ rw long (failed (at_frame s f earlier) ws_close_protocol_error sound)
                | inr short ↦ rw short (
                    >>=-Safely IsControl Leaves (demask_in_place f) _
                      (demask_in_place-Safely f
                        (record { block = block; done = now; short = ground (arith, short) }))
                      (λ g is. control_opcode-Safely s g earlier is before sound))
              ])
      ]
    where
      rest : Reply
      rest =
          if ltb 125 f.payload_len
          then error handlers (at_frame s f earlier) ws_close_protocol_error
          else (demask_in_place f >>= (λ g. control_opcode handlers (at_frame s g earlier) g))

  -- With the default callbacks, `onmessage` aside, the receive loop has what it asks for.
  pub default_callbacks-KeepsSafe :
      (onmessage : Option (ClientState → Message → Reply))
      → ((f : ClientState → Message → Reply)
          → onmessage ≡ some f
          → (s : ClientState) (msg : Message) → s.current_frame ≡ []
          → IsSound s.out_data s.close_info
          → Safely (λ (called : ClientState × ℤ). IsWell IsSound called.0) (f s msg))
      → KeepsSafe IsSound (with_onmessage mem onmessage)
  default_callbacks-KeepsSafe onmessage message = record {
    message = message;
    has_control = (default_control_callback handlers, refl);
    control = λ oncontrol e s f earlier at block now before sound.
        let same : oncontrol ≡ default_control_callback handlers = cc e in
        subst (λ (g : ClientState → Reply). Safely Leaves (g s)) (sym same)
          (subst
            (λ chain.
              Safely Leaves
                (default_control_callback handlers (record s { current_frame = chain })))
            (sym at) (default_control_callback-Safely s f earlier block (now, before) sound));
    failure = default_onerror-FailsSafe mem bounded (with_onmessage mem onmessage) refl;
  }
