-- ===== src/Safety/Frames.antt =====
-- The functions that a complete frame calls keep the invariant.
use mathlib.Core.Path.{subst}
use libwebsock.Prelude.{
  sym, ℕ, ◌+◌, ◌*◌, ◌%◌, ◌≤◌, ◌<◌, ◌^◌, ◌≡◌, refl, ◌∙◌, false, List, [], ◌∷◌, ◌++◌, arith, All,
  length, Option, none, some, ok, Safely, Safely-weaken, >>=-Safely, ◌==◌, le→leb, if◌then◌else◌,
  Bool-cases, inl, inr, ℤ, pos, length-append,
}
use libwebsock.Memory.{Allocator, lws_malloc, lws_calloc}
use libwebsock.Types.{
  ClientState, Callbacks, Message, Reply, Frame, frame_chunk_length, ws_opcode_text,
  ws_close_wrong_type,
}
use libwebsock.Utf8.{validate_utf8_sequence}
use libwebsock.Safety.Text.{first_nul, validate_utf8_sequence-Safely}
use libwebsock.Frames.{
  error, no_frames, fail_and_cleanup, new_continuation_frame, handle_control_frame, rewind_frame,
}
use libwebsock.Dispatch.{
  frame_payload, demask, message_payload, message_payload_len, message_opcode, dispatch_frames,
  check_text, deliver, end_fragment, dispatch_message,
}
use libwebsock.Dispatch.Masking.{Octets, demask-Octets, length-demask}
use libwebsock.DefaultCallbacks.Pings.{at_frame}
use libwebsock.Safety.{
  IsBounded, IsBlock, IsDone, IsWellChain, IsRewindable, IsWell, Holding, KeepsSafe,
}
use libwebsock.Safety.Blocks.{All-append, read-Safely}

-- The sum of the lengths that the headers of a chain claim.
abbrev claimed : List Frame → ℕ
claimed [] = 0
claimed (f ∷ earlier) = f.payload_len + claimed earlier

claimed_le : (chain : List Frame) → All IsDone chain → claimed chain ≤ 4294967295 * length chain
claimed_le [] h = omega arith
claimed_le (f ∷ earlier) h = omega (arith, h.0.below, claimed_le earlier h.1)

message_payload_len-claimed :
    (chain : List Frame) → claimed chain < 2 ^ 64 → message_payload_len chain ≡ claimed chain
unfolding message_payload_len
message_payload_len-claimed [] h = refl
message_payload_len-claimed (f ∷ earlier) h =
    omega (arith, message_payload_len-claimed earlier (omega arith))

frame_payload-Safely :
    (f : Frame)
    → IsDone f
    → f.payload_len < 2 ^ 31
    → Safely (λ p. (length p ≡ f.payload_len) × Octets p) (frame_payload f)
unfolding frame_payload
frame_payload-Safely f done small =
    >>=-Safely (λ bytes. (length bytes ≡ f.payload_len) × Octets bytes) _ _
      (λ bytes. ok (demask f.mask 0 bytes))
      (read-Safely f.rawdata f.payload_offset f.payload_len (done.inside small) done.bytes)
      (λ bytes h. (length-demask f.mask 0 bytes ∙ h.0, demask-Octets f.mask 0 bytes done.key h.1))

message_payload-Safely :
    (chain : List Frame)
    → All IsDone chain
    → claimed chain < 2 ^ 31
    → Safely (λ p. (length p ≡ claimed chain) × Octets p) (message_payload chain)
unfolding message_payload
message_payload-Safely [] h small = (refl, tt)
message_payload-Safely (f ∷ earlier) h small =
    >>=-Safely (λ p. (length p ≡ claimed earlier) × Octets p) _ (message_payload earlier) _
      (message_payload-Safely earlier h.1 (omega arith))
      (λ front before.
        >>=-Safely (λ p. (length p ≡ f.payload_len) × Octets p) _ (frame_payload f) _
          (frame_payload-Safely f h.0 (omega arith))
          (λ own mine. (
            omega (arith, length-append front own, before.0, mine.0),
            All-append (λ b. b < 256) front own before.1 mine.1,
          )))

module _ (cb : Callbacks) (J : Holding) where
  -- What is asked of `onerror`.
  abbrev pub FailsSafe : Type 0
  FailsSafe =
      (onerror : ClientState → ℕ → Reply)
      → cb.onerror ≡ some onerror
      → (s : ClientState) (code : ℕ) → J s.out_data s.close_info
      → Safely (λ (called : ClientState × ℤ). J called.0.out_data called.0.close_info)
          (onerror s code)

  -- The frames are gone.
  abbrev pub Failed : ClientState × ℤ → Type 0
  Failed called = (called.0.current_frame ≡ []) × J called.0.out_data called.0.close_info

  module _ (fails : FailsSafe) where
    call_onerror_at :
        (o : Option (ClientState → ℕ → Reply)) (s : ClientState) (code : ℕ)
        → cb.onerror ≡ o
        → J s.out_data s.close_info
        → Safely
            (λ (called : ClientState × ℤ). J called.0.out_data called.0.close_info)
            (elim o [ none ↦ ok (s, pos 0) | some onerror ↦ onerror s code ])
    call_onerror_at none s code e j = j
    call_onerror_at (some onerror) s code e j = fails onerror e s code j

    pub error-Safely :
        (s : ClientState) (code : ℕ) → J s.out_data s.close_info → Safely Failed (error cb s code)
    unfolding error
    error-Safely s code j =
        >>=-Safely (λ (called : ClientState × ℤ). J called.0.out_data called.0.close_info) Failed _
          (λ called. ok (no_frames called.0, called.1)) (call_onerror_at cb.onerror _ code refl j)
          (λ called held. (refl, held))

    pub fail_and_cleanup-Failed :
        (s : ClientState) → J s.out_data s.close_info → Safely Failed (fail_and_cleanup cb s)
    unfolding fail_and_cleanup
    fail_and_cleanup-Failed s j = error-Safely _ _ j

module _ (mem : Allocator) (cb : Callbacks) (J : Holding) (bounded : IsBounded mem)
    (keeps : KeepsSafe J cb) where
  abbrev Kept : ClientState × ℤ → Type 0
  Kept called = IsWell J called.0

  Failed→Kept : (called : ClientState × ℤ) → Failed cb J called → Kept called
  Failed→Kept called (gone, held) = (rw gone tt, held)

  pub fail_and_cleanup-Safely :
      (s : ClientState) → J s.out_data s.close_info → Safely Kept (fail_and_cleanup cb s)
  fail_and_cleanup-Safely s j =
      Safely-weaken (Failed cb J) Kept (fail_and_cleanup cb s)
        (fail_and_cleanup-Failed cb J keeps.failure s j) Failed→Kept

  pub new_continuation_frame-Safely :
      (s : ClientState) (f : Frame) (earlier : List Frame)
      → All IsDone (f ∷ earlier)
      → J s.out_data s.close_info
      → Safely Kept (new_continuation_frame mem (at_frame s f earlier))
  unfolding new_continuation_frame
  new_continuation_frame-Safely s f earlier done j = (
    (
      record {
        sized = omega (arith, mem.length-garbage frame_chunk_length);
        room = omega (arith, mem.length-garbage frame_chunk_length);
        bytes = bounded.bytes frame_chunk_length;
      },
      omega arith,
      done,
    ),
    j,
  )

  rewind_frame-IsWellChain :
      (chain : List Frame) → IsRewindable chain → IsWellChain (rewind_frame chain)
  rewind_frame-IsWellChain [] h = tt
  rewind_frame-IsWellChain (f ∷ earlier) (block, done) =
      (record { sized = block.sized; room = block.room; bytes = block.bytes }, omega arith, done)

  pub handle_control_frame-Safely :
      (s : ClientState) (f : Frame) (earlier : List Frame)
      → IsBlock f
      → All IsDone (f ∷ earlier)
      → J s.out_data s.close_info
      → Safely Kept (handle_control_frame cb (at_frame s f earlier))
  unfolding handle_control_frame
  handle_control_frame-Safely s f earlier block done j =
      let (oncontrol, there) = keeps.has_control in
      rw there (
        >>=-Safely
          (λ (called : ClientState × ℤ).
            IsRewindable called.0.current_frame × J called.0.out_data called.0.close_info)
          Kept (oncontrol (at_frame s f earlier)) _
          (keeps.control oncontrol there (at_frame s f earlier) f earlier refl block done.0 done.1
            j)
          (λ called held. (rewind_frame-IsWellChain called.0.current_frame held.0, held.1)))

  call_onmessage_at :
      (o : Option (ClientState → Message → Reply)) (s : ClientState) (msg : Message)
      → cb.onmessage ≡ o
      → J s.out_data s.close_info
      → Safely Kept
          (elim o [ none ↦ ok (no_frames s, pos 0) | some onmessage ↦ onmessage (no_frames s) msg ])
  call_onmessage_at none s msg e j = (tt, j)
  call_onmessage_at (some onmessage) s msg e j = keeps.message onmessage e (no_frames s) msg refl j

  deliver-Safely :
      (s : ClientState) (opcode : ℕ) (payload : List ℕ)
      → J s.out_data s.close_info
      → Safely Kept (deliver mem cb s opcode payload)
  unfolding deliver lws_calloc
  deliver-Safely s opcode payload j = elim (Bool-cases (mem.fits ((length payload + 1) % 2 ^ 64))) [
    | inr refused ↦ rw refused tt
    | inl fits ↦ rw fits (call_onmessage_at cb.onmessage s _ refl j)
  ]

  check_text-Safely :
      (s : ClientState) (opcode : ℕ) (payload : List ℕ)
      → Octets payload
      → J s.out_data s.close_info
      → Safely Kept (check_text mem cb s opcode payload)
  unfolding check_text
  check_text-Safely s opcode payload octets j = elim (Bool-cases (opcode == ws_opcode_text)) [
    | inr other ↦ rw other (deliver-Safely s opcode payload j)
    | inl text ↦ rw text (
        >>=-Safely (λ valid. Unit {0}) Kept (validate_utf8_sequence (payload ++ 0 ∷ [])) _
          (validate_utf8_sequence-Safely (length payload) (payload ++ 0 ∷ [])
            (first_nul payload [] octets))
          (λ valid any. elim (Bool-cases valid) [
            | inl yes_valid ↦ rw yes_valid (deliver-Safely s opcode payload j)
            | inr invalid ↦ rw invalid (
                Safely-weaken (Failed cb J) Kept (error cb s ws_close_wrong_type)
                  (error-Safely cb J keeps.failure s ws_close_wrong_type j) Failed→Kept)
          ]))
  ]

  dispatch_frames-Safely :
      (s : ClientState)
      → All IsDone s.current_frame
      → length s.current_frame < 2 ^ 32
      → J s.out_data s.close_info
      → Safely Kept (dispatch_frames mem cb s)
  unfolding dispatch_frames lws_malloc
  dispatch_frames-Safely s done few j =
      let n = message_payload_len s.current_frame in
      let same : n ≡ claimed s.current_frame =
        message_payload_len-claimed s.current_frame
          (omega (arith, claimed_le s.current_frame done)) in
      elim (Bool-cases (mem.fits ((n + 1) % 2 ^ 64))) [
        | inr refused ↦ rw refused tt
        | inl fits ↦
            let (positive, small) = bounded.granted ((n + 1) % 2 ^ 64) fits in
            rw fits (
              >>=-Safely (λ p. (length p ≡ claimed s.current_frame) × Octets p) Kept
                (message_payload s.current_frame) _
                (message_payload-Safely s.current_frame done
                  (omega (arith, claimed_le s.current_frame done)))
                (λ payload read.
                  rw (le→leb (length payload) n (omega (arith, read.0)))
                    (check_text-Safely s (message_opcode s.current_frame) payload read.1 j)))
      ]

  pub dispatch_message-Safely :
      (s : ClientState) (f : Frame) (earlier : List Frame)
      → s.flags.sent_close_frame ≡ false
      → All IsDone (f ∷ earlier)
      → length (f ∷ earlier) < 2 ^ 32
      → J s.out_data s.close_info
      → Safely Kept (dispatch_message mem cb (at_frame s f earlier))
  unfolding dispatch_message
  dispatch_message-Safely s f earlier open_side done few j =
      subst
        (λ t. Safely Kept (
          if t
          then ok (end_fragment (at_frame s f earlier), pos 0)
          else dispatch_frames mem cb (end_fragment (at_frame s f earlier))))
        (sym open_side) (dispatch_frames-Safely (end_fragment (at_frame s f earlier)) done few j)
