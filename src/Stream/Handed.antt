-- ===== src/Stream/Handed.antt =====
-- The message that the stored frames and the last one make.
use mathlib.Core.Path.{subst, ap₂}
use libwebsock.Prelude.{
  ℕ, ◌+◌, ◌<◌, ◌≡◌, inl, inr, refl, ◌∙◌, ap, sym, Bool, true, false, List, [], ◌∷◌, ◌++◌, arith,
  length, none, some, bit_and, Bool-cases, All, ◌==◌,
}
use libwebsock.Memory.{Allocator}
use libwebsock.Types.{ClientState, Callbacks, Frame, Message, Reply, ws_opcode_text}
use libwebsock.Utf8.Grammar.{IsByte}
use libwebsock.Utf8.Validity.{IsUtf8}
use libwebsock.Frames.{no_frames}
use libwebsock.Dispatch.{message_opcode, dispatch_message, end_fragment, call_onmessage}
use libwebsock.Dispatch.Messages.{CanDispatch, joined, dispatch_other, dispatch_text, whole_message}
use libwebsock.DefaultCallbacks.Carried.{frame_payload-carried}
use libwebsock.Receive.{dispatch, continuation}
use libwebsock.Receive.Table.{table_class}
use libwebsock.Receive.Arrival.{Arrived}
use libwebsock.Safety.Control.{with_onmessage}
use libwebsock.Stream.{
  Key, last, more, first_byte, Unfinished, is_inside, opcode_with, bytes_with, IsData, MessageFits,
}
use libwebsock.Stream.Pongs.{shown}
use libwebsock.Stream.Shown.{Stored, IsSettled, kept_fragment}

module _ (mem : Allocator) (onmessage : ClientState → Message → Reply) where
  abbrev pub cb : Callbacks
  cb = with_onmessage mem (some onmessage)

  -- The chain of an arrived frame and the stored ones holds the whole message.
  pub gathered :
      (u : Unfinished) (g : Frame) (earlier : List Frame) (a opcode : ℕ) (payload : List ℕ)
      → Arrived a payload g
      → Stored u earlier
      → (u ≡ none → bit_and a 0xf ≡ opcode)
      → Stored (some (opcode_with u opcode, bytes_with u payload)) (g ∷ earlier)
  unfolding message_opcode
  gathered none g earlier a opcode payload arrived stored first = rw stored (
    payload ∷ [],
    (
      frame_payload-carried g arrived.header payload arrived.free arrived.carries,
      arrived.carries.len,
      tt,
    ),
    refl,
    arrived.opcode_of ∙ first refl,
    (λ e. cc),
  )
  gathered (some (o, bytes)) g [] a opcode payload arrived (ps, holds, join, op, some_frame) first =
      absurd (some_frame refl)
  gathered (some (o, bytes)) g (f ∷ earlier) a opcode payload arrived
        (ps, holds, join, op, some_frame) first =
      (
        payload ∷ ps,
        (
          frame_payload-carried g arrived.header payload arrived.free arrived.carries,
          arrived.carries.len,
          holds,
        ),
        ap (λ l. l ++ payload) join,
        op,
        (λ e. cc),
      )

  -- A whole message is handed over.
  pub message_dispatched :
      (s : ClientState) (inside : Bool) (chain : List Frame) (opcode : ℕ) (bytes : List ℕ)
      → IsSettled mem s
      → Stored (some (opcode, bytes)) chain
      → MessageFits opcode bytes
      → dispatch_message mem cb (shown s inside chain)
        ≡ onmessage s (record { opcode = opcode; payload_len = length bytes; payload = bytes })
  message_dispatched s inside chain opcode bytes settled (ps, holds, join, op, some_frame) fits =
      elim (Bool-cases (opcode == ws_opcode_text)) [
        | inl text ↦
            let is_text : opcode ≡ ws_opcode_text = ground arith in
            let valid = fits.1 is_text in
            dispatch_text mem cb (shown s inside chain) ps can (op ∙ is_text)
              (subst (λ l. All IsByte l) (sym join) valid.0)
              (subst (λ l. IsUtf8 l) (sym join) valid.1)
            ∙ handed
        | inr other ↦
            dispatch_other mem cb (shown s inside chain) ps can
              (λ e. absurd (ground (arith, op, e, other)))
            ∙ handed
      ]
    where
      can : CanDispatch mem cb (shown s inside chain) ps
      can = record {
        open_side = settled.idle.open_side;
        holds = holds;
        some_frame = some_frame;
        below = omega (arith, fits.0, ap length join);
        granted =
            settled.idle.grants (length (joined ps) + 1) (omega (arith, fits.0, ap length join));
      }

      handed :
          call_onmessage cb
            (no_frames (end_fragment (shown s inside chain)))
            (whole_message mem cb (shown s inside chain) ps)
          ≡ onmessage s (record { opcode = opcode; payload_len = length bytes; payload = bytes })
      handed =
          ap (λ t. onmessage t (whole_message mem cb (shown s inside chain) ps))
            (kept_fragment mem cb s settled)
          ∙ ap₂ (λ o l. onmessage s (record { opcode = o; payload_len = length l; payload = l })) op
              join

  pub data_class :
      (inside : Bool) (opcode : ℕ) (key : Key) (payload : List ℕ)
      → IsData opcode
      → (table_class inside (first_byte inside (last opcode key payload)) ≡ dispatch)
        × (table_class inside (first_byte inside (more opcode key payload)) ≡ continuation)
        × (first_byte inside (last opcode key payload) < 256)
        × (first_byte inside (more opcode key payload) < 256)
  data_class true opcode key payload is_data = (refl, refl, omega arith, omega arith)
  data_class false opcode key payload (inl e) = rw e (refl, refl, omega arith, omega arith)
  data_class false opcode key payload (inr e) = rw e (refl, refl, omega arith, omega arith)

  pub data_opcode :
      (u : Unfinished) (opcode : ℕ) (key : Key) (payload : List ℕ)
      → IsData opcode
      → u ≡ none
      → (bit_and (first_byte (is_inside u) (last opcode key payload)) 0xf ≡ opcode)
        × (bit_and (first_byte (is_inside u) (more opcode key payload)) 0xf ≡ opcode)
  data_opcode none opcode key payload (inl e) outside = rw e (refl, refl)
  data_opcode none opcode key payload (inr e) outside = rw e (refl, refl)
  data_opcode (some m) opcode key payload is_data outside = absurd (ground arith)
