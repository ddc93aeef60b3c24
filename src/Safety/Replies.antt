-- ===== src/Safety/Replies.antt =====
-- The default callbacks that send a frame keep the invariant of a client.
use mathlib.Core.Path.{subst}
use libwebsock.Prelude.{
  sym, ℕ, ◌≡◌, List, arith, All, length-drop, drop, Option, none, some, Safely, Safely-weaken, ℤ,
  pos,
}
use libwebsock.Memory.{Allocator}
use libwebsock.Types.{ClientState, Callbacks, CloseInfo, Frame, Reply, ws_close_normal}
use libwebsock.Api.{make_close_frame, make_close_frame_with_reason, make_pong_frame}
use libwebsock.DefaultCallbacks.{
  default_onclose_callback, default_onping_callback, default_onerror_callback,
}
use libwebsock.DefaultCallbacks.Pings.{at_frame}
use libwebsock.Safety.{IsBounded, IsDone, IsRewindable}
use libwebsock.Safety.Frames.{FailsSafe, Failed}
use libwebsock.Safety.Sending.{
  IsSound, IsSoundInfo, Sends, make_fragment-Safely, make_close_frame_with_reason-none,
  make_close_frame_with_reason-some,
}
use libwebsock.Safety.Payload.{IsControl}

-- What is left of a client: its current frame, if there is one, can be rewound, and the rest is
-- sound.
abbrev pub Leaves : ClientState × ℤ → Type 0
Leaves called = IsRewindable called.0.current_frame × IsSound called.0.out_data called.0.close_info

module _ (mem : Allocator) (bounded : IsBounded mem) where
  pub default_onerror-FailsSafe :
      (cb : Callbacks) → cb.onerror ≡ some (default_onerror_callback mem) → FailsSafe cb IsSound
  unfolding default_onerror_callback
  default_onerror-FailsSafe cb is onerror e s code (out, info) =
      let same : onerror ≡ default_onerror_callback mem = cc (is, e) in
      subst
        (λ (f : ClientState → ℕ → Reply).
          Safely (λ (called : ClientState × ℤ). IsSound called.0.out_data called.0.close_info)
            (f s code))
        (sym same)
        (Safely-weaken (Sends s) _ (default_onerror_callback mem s code)
          (make_close_frame_with_reason-none mem bounded s code out)
          (λ called sent. (sent.0, subst IsSoundInfo (sym sent.2) info)))

  pub Failed→Leaves :
      (cb : Callbacks) (called : ClientState × ℤ) → Failed cb IsSound called → Leaves called
  Failed→Leaves cb called (gone, held) = (rw gone tt, held)

  Sends→Leaves :
      (s : ClientState) (called : ClientState × ℤ)
      → Leaves (s, pos 0)
      → Sends s called
      → Leaves called
  Sends→Leaves s called (chain, (out, info)) (sent, same_chain, same_info) =
      (subst IsRewindable (sym same_chain) chain, (sent, subst IsSoundInfo (sym same_info) info))

  pub default_onclose-Safely :
      (s : ClientState) → Leaves (s, pos 0) → Safely Leaves (default_onclose_callback mem s)
  unfolding default_onclose_callback make_close_frame
  default_onclose-Safely s (chain, (out, info)) = at s.close_info info
    where
      at :
          (o : Option CloseInfo)
          → IsSoundInfo o
          → Safely Leaves (elim o [
            | some info ↦ make_close_frame_with_reason mem s info.code (some info.reason)
            | none ↦ make_close_frame mem s
          ])
      at none sound =
          Safely-weaken (Sends s) Leaves (make_close_frame mem s)
            (make_close_frame_with_reason-none mem bounded s ws_close_normal out)
            (λ called sent. Sends→Leaves s called (chain, (out, info)) sent)
      at (some i) sound =
          Safely-weaken (Sends s) Leaves (make_close_frame_with_reason mem s i.code (some i.reason))
            (make_close_frame_with_reason-some mem bounded s i.code i.reason out sound)
            (λ called sent. Sends→Leaves s called (chain, (out, info)) sent)

  pub default_onping-Safely :
      (s : ClientState) (f : Frame) (earlier : List Frame)
      → IsControl f
      → All IsDone earlier
      → IsSound s.out_data s.close_info
      → Safely Leaves (default_onping_callback mem (at_frame s f earlier))
  unfolding default_onping_callback make_pong_frame
  default_onping-Safely s f earlier is done sound =
      Safely-weaken (Sends (at_frame s f earlier)) Leaves _
        (make_fragment-Safely mem bounded (at_frame s f earlier) (drop f.payload_offset f.rawdata)
          f.payload_len 0x8a sound.0
          (omega (
            arith,
            length-drop f.payload_offset f.rawdata,
            is.done.inside (omega (arith, is.short)),
          ))
          (omega (arith, is.short)))
        (λ called sent. Sends→Leaves (at_frame s f earlier) called ((is.block, done), sound) sent)
