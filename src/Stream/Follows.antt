-- ===== src/Stream/Follows.antt =====
-- `libwebsock_handle_recv` against the peer's pieces: messages, their parts, pings and pongs.
use mathlib.Core.Path.{subst}
use libwebsock.Prelude.{
  ◌≡◌, ◌⊎◌, inl, inr, refl, ◌∙◌, ap, sym, false, List, [], ◌∷◌, none, some, ok, fault, exited, ℤ,
  pos, minus_one,
}
use libwebsock.Memory.{Allocator}
use libwebsock.Types.{ClientState, Callbacks, Message, Reply}
use libwebsock.Wire.{client_frame}
use libwebsock.Receive.{receive_loop, after_loop, handle_recv}
use libwebsock.Receive.Messages.{handle_recv-loop}
use libwebsock.Receive.Calls.{loop-after_loop}
use libwebsock.Safety.Control.{with_onmessage}
use libwebsock.Stream.{
  Piece, last, more, ping, pong, wire, Unfinished, is_inside, Followed, follow, Fits,
}
use libwebsock.Stream.Shown.{Shows, Stands, IsSettled}
use libwebsock.Stream.Pieces.{
  Keeps, Refines, last_refined, more_refined, ping_refined, pong_refined,
}

module _ (mem : Allocator) (onmessage : ClientState → Message → Reply)
    (keeps : Keeps mem onmessage) where
  abbrev cb : Callbacks
  cb = with_onmessage mem (some onmessage)

  loop_refined :
      (ps : List Piece) (s : ClientState) (u : Unfinished) (c : ClientState) (r : ℤ)
      → IsSettled mem s
      → Shows s u c
      → Fits u ps
      → Refines mem onmessage keeps
          (follow mem onmessage s u ps r)
          (receive_loop mem cb 0 c (wire (is_inside u) ps) r)
  unfolding follow receive_loop
  loop_refined [] s u c r settled shows fits = (c, shows, refl)
  loop_refined (last opcode key payload ∷ ps) s u c r settled shows
        (frame, is_data, message, fits) =
      last_refined mem onmessage keeps s settled u c r shows ps opcode key payload frame is_data
        message (λ s r settled. loop_refined ps s none s r settled (inl (refl, refl)) fits)
  loop_refined (more opcode key payload ∷ ps) s u c r settled shows (frame, is_data, fits) =
      more_refined mem onmessage keeps s settled u c r shows ps opcode key payload frame is_data
        (λ c shows. loop_refined ps s _ c (pos 0) settled shows fits)
  loop_refined (ping key payload ∷ ps) s u c r settled shows (frame, short, fits) =
      ping_refined mem onmessage keeps s settled u c r shows ps key payload frame short
        (λ s c r settled shows. loop_refined ps s u c r settled shows fits)
  loop_refined (pong key payload ∷ ps) s u c r settled shows (frame, short, fits) =
      pong_refined mem onmessage keeps s settled u c r shows ps key payload frame short
        (λ c shows. loop_refined ps s u c (pos 0) settled shows fits)

  -- A call returns what following the pieces comes to, and leaves a client that stands for it.
  abbrev pub Matches : Followed → Reply → Type 0
  Matches (ok (s, u, r)) reply = (c : ClientState) × Stands mem cb s u c × (reply ≡ ok (c, r))
  Matches fault reply = reply ≡ fault
  Matches exited reply = reply ≡ exited

  Refines-Matches :
      (m : Followed) (reply : Reply) → Refines mem onmessage keeps m reply → Matches m reply
  Refines-Matches (ok (s, u, r)) reply (c, shows, e) =
      (after_loop mem cb c, (c, shows, inr refl), e)
  Refines-Matches fault reply e = e
  Refines-Matches exited reply e = e

  running :
      (s : ClientState) (u : Unfinished) (c : ClientState)
      → IsSettled mem s
      → Shows s u c
      → c.flags.processing_error ≡ false
  running s u c settled (inl (outside, e)) =
      ap (λ (c : ClientState). c.flags.processing_error) e ∙ settled.idle.running
  running s u c settled (inr (f, earlier, fresh, stored, e)) =
      ap (λ (c : ClientState). c.flags.processing_error) e ∙ settled.idle.running

  -- A client with the default callbacks around an `onmessage` that keeps it in order, which
  -- stands for a client and an unfinished message, gets the frames of messages in any number of
  -- parts, with pings and pongs before, between and behind them, in one call of
  -- `libwebsock_handle_recv`. A frame has at most 2^30 - 14 bytes of payload, a ping or pong at most
  -- 125; a message has less than 2^30 bytes and, if it is text, is UTF-8 without NUL. The call comes
  -- to what the abstract receiver `follow` comes to: `onmessage` gets each message once, when its
  -- last part is there, whole and with its opcode; each ping is handed to the frame writer as it
  -- comes, and -1 from either ends the call. The client that is left stands for the client and the
  -- unfinished message that `follow` leaves.
  pub handle_recv-Matches :
      (s : ClientState) (u : Unfinished) (c : ClientState) (p : Piece) (ps : List Piece)
      → IsSettled mem s
      → Stands mem cb s u c
      → Fits u (p ∷ ps)
      → Matches
          (follow mem onmessage s u (p ∷ ps) minus_one)
          (handle_recv mem cb c (wire (is_inside u) (p ∷ ps)))
  unfolding client_frame
  handle_recv-Matches s u c p ps settled (c', shows, at_end) fits =
      Refines-Matches (follow mem onmessage s u (p ∷ ps) minus_one)
        (handle_recv mem cb c (wire (is_inside u) (p ∷ ps)))
        (subst (Refines mem onmessage keeps (follow mem onmessage s u (p ∷ ps) minus_one))
          (sym (handle_recv-loop mem cb c _ _ ∙ begins at_end))
          (loop_refined (p ∷ ps) s u c' minus_one settled shows fits))
    where
      begins :
          ((c ≡ c') ⊎ (c ≡ after_loop mem cb c'))
          → receive_loop mem cb 0 c (wire (is_inside u) (p ∷ ps)) minus_one
            ≡ receive_loop mem cb 0 c' (wire (is_inside u) (p ∷ ps)) minus_one
      begins (inl e) = ap (λ c. receive_loop mem cb 0 c (wire (is_inside u) (p ∷ ps)) minus_one) e
      begins (inr e) =
          ap (λ c. receive_loop mem cb 0 c (wire (is_inside u) (p ∷ ps)) minus_one) e
          ∙ loop-after_loop mem cb c' _ _ minus_one (running s u c' settled shows)
