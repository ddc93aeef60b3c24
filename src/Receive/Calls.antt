-- ===== src/Receive/Calls.antt =====
-- Two calls of `libwebsock_handle_recv` against one with the bytes of both.
use libwebsock.Prelude.{
  ℕ, zero, suc, ◌+◌, ◌≡◌, ◌⊎◌, arith, refl, ◌∙◌, ap, sym, Bool, true, false, List, [], ◌∷◌, ◌++◌,
  Outcome, ok, ◌>>=◌, >>=-assoc, bind_under, ltb, leb, ◌-◌, length, if◌then◌else◌, ℤ, pos,
  minus_one, Bool-cases, inl, inr,
}
use libwebsock.Memory.{Allocator, write}
use libwebsock.Types.{ClientState, Callbacks, Frame, Reply}
use libwebsock.Receive.{
  Progress, again, returned, is_loaded, current_chain, set_needs_more, copy_payload, header_read,
  store_byte, receive_step, receive_loop, after_loop, handle_recv,
}
use libwebsock.Receive.Loop.{go_on}
use libwebsock.Receive.Messages.{handle_recv-loop}
use libwebsock.Receive.Chunks.{receive_progress, loop-append, loop-progress, behind_header}

-- The state that a call leaves.
abbrev pub state_of : Reply → Outcome ClientState
state_of m = m >>= (λ called. ok called.0)

module _ (mem : Allocator) (cb : Callbacks) where
  -- What an iteration leads to, whatever number the loop would return.
  abbrev leads_to : List ℕ → Progress → Outcome ClientState
  leads_to bs p = state_of (go_on mem cb bs p)

  module _ (bs : List ℕ) (q r : ℤ)
      (ih : (skip : ℕ) (s : ClientState)
        → state_of (receive_loop mem cb skip s bs q)
          ≡ state_of (receive_loop mem cb skip s bs r)) where
    copy_payload-retval :
        (s : ClientState) (f : Frame) (earlier : List Frame)
        → (copy_payload mem cb s f earlier bs q >>= leads_to bs)
          ≡ (copy_payload mem cb s f earlier bs r >>= leads_to bs)
    unfolding copy_payload
    copy_payload-retval s f earlier = elim (Bool-cases (ltb f.rawdata_idx f.size)) [
      | inr none_left ↦ rw none_left
      | inl more ↦ rw more (elim (Bool-cases (leb (f.size - f.rawdata_idx) (length bs))) [
        | inl there ↦ rw there
        | inr part ↦ rw part (
            bind_under (write f.rawdata f.rawdata_idx bs) _ _ (leads_to bs) (leads_to bs)
              (λ block. ih (length bs) _))
      ])
    ]

    behind_header-retval :
        (s : ClientState) (earlier : List Frame) (header : Frame × Bool)
        → (behind_header mem cb s earlier bs q header >>= leads_to bs)
          ≡ (behind_header mem cb s earlier bs r header >>= leads_to bs)
    behind_header-retval s earlier (f, true) = copy_payload-retval s f earlier
    behind_header-retval s earlier (f, false) = ih 0 (record s { current_frame = f ∷ earlier })

    store_byte-retval :
        (s : ClientState) (chain : List Frame) (b : ℕ)
        → (store_byte mem cb s chain b bs q >>= leads_to bs)
          ≡ (store_byte mem cb s chain b bs r >>= leads_to bs)
    unfolding store_byte
    store_byte-retval s [] b = refl
    store_byte-retval s (f ∷ earlier) b =
        let stored = λ (block : List ℕ).
          header_read mem cb (record f { rawdata = block; rawdata_idx = f.rawdata_idx + 1 }) in
        bind_under (write f.rawdata f.rawdata_idx (b ∷ []))
          (λ block. stored block >>= behind_header mem cb s earlier bs q)
          (λ block. stored block >>= behind_header mem cb s earlier bs r) (leads_to bs)
          (leads_to bs)
          (λ block.
            bind_under (stored block) (behind_header mem cb s earlier bs q)
              (behind_header mem cb s earlier bs r) (leads_to bs) (leads_to bs)
              (behind_header-retval s earlier))

    receive_step-retval :
        (s : ClientState) (b : ℕ)
        → (receive_step mem cb s b bs q >>= leads_to bs)
          ≡ (receive_step mem cb s b bs r >>= leads_to bs)
    unfolding receive_step
    receive_step-retval s b =
        let guarded = λ (t : Bool) (o : Outcome Progress).
          (if t then ok (returned s (pos 0)) else o) >>= leads_to bs in
        let store = λ (n : ℤ).
          store_byte mem cb (set_needs_more false s) (current_chain s.current_frame) b bs n in
        elim (Bool-cases s.flags.processing_error) [
          | inl failed ↦
              ap (λ t. guarded t (store q)) failed ∙ sym (ap (λ t. guarded t (store r)) failed)
          | inr running ↦
              ap (λ t. guarded t (store q)) running
              ∙ store_byte-retval (set_needs_more false s) (current_chain s.current_frame) b
              ∙ sym (ap (λ t. guarded t (store r)) running)
        ]

  -- The number that the loop starts with does not touch the state.
  loop-retval :
      (skip : ℕ) (s : ClientState) (bs : List ℕ) (q r : ℤ)
      → state_of (receive_loop mem cb skip s bs q) ≡ state_of (receive_loop mem cb skip s bs r)
  unfolding receive_loop
  loop-retval skip s [] q r = refl
  loop-retval (suc skip) s (b ∷ bs) q r = loop-retval skip s bs q r
  loop-retval zero s (b ∷ bs) q r =
      >>=-assoc (receive_step mem cb s b bs q) (go_on mem cb bs) _
      ∙ receive_step-retval bs q r (λ k s'. loop-retval k s' bs q r) s b
      ∙ sym (>>=-assoc (receive_step mem cb s b bs r) (go_on mem cb bs) _)

  after_loop-cases :
      (s : ClientState) (chain : List Frame)
      → s.current_frame ≡ chain
      → (after_loop mem cb s ≡ s) ⊎ (after_loop mem cb s ≡ set_needs_more true s)
  unfolding after_loop
  after_loop-cases s [] e = inl (ground (arith, e))
  after_loop-cases s (f ∷ earlier) e = elim (Bool-cases (is_loaded f.state)) [
    | inl loaded ↦ inl (ground (arith, e, loaded))
    | inr open_frame ↦ inr (ground (arith, e, open_frame))
  ]

  loop-set_needs_more :
      (s : ClientState) (c : ℕ) (ys : List ℕ) (r : ℤ)
      → s.flags.processing_error ≡ false
      → receive_loop mem cb 0 (set_needs_more true s) (c ∷ ys) r
        ≡ receive_loop mem cb 0 s (c ∷ ys) r
  unfolding receive_loop receive_step
  loop-set_needs_more s c ys r running =
      let guarded = λ (t : Bool) (s' : ClientState).
        (if t
          then ok (returned s' (pos 0))
          else store_byte mem cb (set_needs_more false s) (current_chain s.current_frame) c ys r)
        >>= go_on mem cb ys in
      ap (λ t. guarded t (set_needs_more true s)) running ∙ sym (ap (λ t. guarded t s) running)

  -- A flag that says that more is needed is reset by the next byte.
  pub loop-after_loop :
      (s : ClientState) (c : ℕ) (ys : List ℕ) (r : ℤ)
      → s.flags.processing_error ≡ false
      → receive_loop mem cb 0 (after_loop mem cb s) (c ∷ ys) r ≡ receive_loop mem cb 0 s (c ∷ ys) r
  loop-after_loop s c ys r running = elim (after_loop-cases s s.current_frame refl) [
    | inl same ↦ ap (λ s'. receive_loop mem cb 0 s' (c ∷ ys) r) same
    | inr more ↦
        ap (λ s'. receive_loop mem cb 0 s' (c ∷ ys) r) more ∙ loop-set_needs_more s c ys r running
  ]

  -- Bytes that arrive in two calls leave the state that they leave in one call, wherever they are
  -- cut, if the loop of the first call runs to the end of its bytes and no processing error is
  -- recorded: the first call returns, and the second one leaves the state of the one call.
  pub handle_recv_calls :
      (s s' : ClientState) (b c : ℕ) (xs ys : List ℕ) (r : ℤ)
      → receive_progress mem cb 0 s (b ∷ xs) minus_one ≡ ok (again s' 0 r)
      → s'.flags.processing_error ≡ false
      → (handle_recv mem cb s (b ∷ xs) ≡ ok (after_loop mem cb s', r))
        × (state_of (handle_recv mem cb s ((b ∷ xs) ++ c ∷ ys))
            ≡ state_of (handle_recv mem cb (after_loop mem cb s') (c ∷ ys)))
  unfolding receive_loop
  handle_recv_calls s s' b c xs ys r reached running = (
    handle_recv-loop mem cb s b xs
        ∙ loop-progress mem cb 0 s (b ∷ xs) minus_one
        ∙ ap (λ (o : Outcome Progress). o >>= go_on mem cb []) reached,
    ap state_of (
          handle_recv-loop mem cb s b (xs ++ c ∷ ys)
          ∙ loop-append mem cb 0 s (b ∷ xs) c ys minus_one
          ∙ ap (λ (o : Outcome Progress). o >>= go_on mem cb (c ∷ ys)) reached
          ∙ sym (loop-after_loop s' c ys r running))
        ∙ loop-retval 0 (after_loop mem cb s') (c ∷ ys) r minus_one
        ∙ ap state_of (sym (handle_recv-loop mem cb (after_loop mem cb s') c ys)),
  )
