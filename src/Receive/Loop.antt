-- ===== src/Receive/Loop.antt =====
-- The loop of `libwebsock_handle_recv`, a byte of a header at a time.
use libwebsock.Prelude.{
  ℕ, ◌≡◌, ◌≢◌, refl, ◌∙◌, ap, sym, true, false, List, [], ◌∷◌, ◌++◌, Outcome, ok, ◌>>=◌,
  if◌then◌else◌, ℤ, pos, >>=-assoc,
}
use libwebsock.Memory.{Allocator, write}
use libwebsock.Types.{
  ClientState, Callbacks, Frame, FrameState, Reply, sw_start, sw_loaded_mask, sw_got_two,
  sw_got_short_len, sw_got_full_len,
}
use libwebsock.Header.{Step}
use libwebsock.Header.Feed.{feed}
use libwebsock.Header.Whole.{Feeds}
use libwebsock.DefaultCallbacks.Pings.{at_frame}
use libwebsock.Receive.{
  Progress, again, broken, returned, set_needs_more, store_byte, header_read, copy_payload,
  receive_step, receive_loop, after_loop, is_loaded,
}

not_loaded_lem : (st : FrameState) → st ≢ sw_loaded_mask → is_loaded st ≡ false
not_loaded_lem sw_start h = refl
not_loaded_lem sw_got_two h = refl
not_loaded_lem sw_got_short_len h = refl
not_loaded_lem sw_got_full_len h = refl
not_loaded_lem sw_loaded_mask h = absurd (h refl)

module _ (mem : Allocator) (cb : Callbacks) where
  -- What the loop does with the outcome of an iteration, at the bytes behind the current one.
  abbrev pub go_on : List ℕ → Progress → Reply
  go_on rest progress = elim progress [
    | again s skip r ↦ receive_loop mem cb skip s rest r
    | broken s r ↦ ok (after_loop mem cb s, r)
    | returned s r ↦ ok (s, r)
  ]

  receive_loop-step :
      (s : ClientState) (b : ℕ) (rest : List ℕ) (r : ℤ)
      → receive_loop mem cb 0 s (b ∷ rest) r ≡ (receive_step mem cb s b rest r >>= go_on rest)
  unfolding receive_loop
  receive_loop-step s b rest r = refl

  store_byte-feed :
      (s : ClientState) (f : Frame) (earlier : List Frame) (b : ℕ) (rest : List ℕ) (r : ℤ)
      → f.state ≢ sw_loaded_mask
      → store_byte mem cb s (f ∷ earlier) b rest r ≡ (
          feed mem f b >>= (λ header.
            if header.1
            then copy_payload mem cb s header.0 earlier rest r
            else ok (again (record s { current_frame = header.0 ∷ earlier }) 0 r)))
  unfolding store_byte header_read
  store_byte-feed s f earlier b rest r h =
      rw (not_loaded_lem f.state h) (sym (>>=-assoc (write f.rawdata f.rawdata_idx (b ∷ [])) _ _))

  -- A byte that leaves the header incomplete only changes the current frame.
  loop_more :
      (s : ClientState) (f g : Frame) (earlier : List Frame) (b : ℕ) (rest : List ℕ) (r : ℤ)
      → s.flags.processing_error ≡ false
      → f.state ≢ sw_loaded_mask
      → feed mem f b ≡ ok (g, false)
      → receive_loop mem cb 0 (at_frame s f earlier) (b ∷ rest) r
        ≡ receive_loop mem cb 0 (at_frame (set_needs_more false s) g earlier) rest r
  unfolding receive_step
  loop_more s f g earlier b rest r running h e =
      receive_loop-step (at_frame s f earlier) b rest r
      ∙ ap (λ (p : Outcome Progress). p >>= go_on rest)
          (ap
              (λ t.
                if t
                then ok (returned (at_frame s f earlier) (pos 0))
                else store_byte mem cb (set_needs_more false (at_frame s f earlier)) (f ∷ earlier) b
                    rest r)
              running
            ∙ store_byte-feed (set_needs_more false (at_frame s f earlier)) f earlier b rest r h
            ∙ ap
                (λ (step : Step). step >>= (λ header.
                  if header.1
                  then copy_payload mem cb (set_needs_more false (at_frame s f earlier)) header.0
                      earlier rest r
                  else ok (
                      again
                        (record (set_needs_more false (at_frame s f earlier)) {
                          current_frame = header.0 ∷ earlier;
                        })
                        0 r)))
                e)

  -- The byte that completes a header.
  loop_loaded :
      (s : ClientState) (f g : Frame) (earlier : List Frame) (b : ℕ) (rest : List ℕ) (r : ℤ)
      → s.flags.processing_error ≡ false
      → f.state ≢ sw_loaded_mask
      → feed mem f b ≡ ok (g, true)
      → receive_loop mem cb 0 (at_frame s f earlier) (b ∷ rest) r ≡ (
          copy_payload mem cb (set_needs_more false (at_frame s f earlier)) g earlier rest r
          >>= go_on rest)
  unfolding receive_step
  loop_loaded s f g earlier b rest r running h e =
      receive_loop-step (at_frame s f earlier) b rest r
      ∙ ap (λ (p : Outcome Progress). p >>= go_on rest)
          (ap
              (λ t.
                if t
                then ok (returned (at_frame s f earlier) (pos 0))
                else store_byte mem cb (set_needs_more false (at_frame s f earlier)) (f ∷ earlier) b
                    rest r)
              running
            ∙ store_byte-feed (set_needs_more false (at_frame s f earlier)) f earlier b rest r h
            ∙ ap
                (λ (step : Step). step >>= (λ header.
                  if header.1
                  then copy_payload mem cb (set_needs_more false (at_frame s f earlier)) header.0
                      earlier rest r
                  else ok (
                      again
                        (record (set_needs_more false (at_frame s f earlier)) {
                          current_frame = header.0 ∷ earlier;
                        })
                        0 r)))
                e)

  -- All the bytes of a header that leave it incomplete.
  loop-Feeds :
      (s : ClientState) (f g : Frame) (earlier : List Frame) (bs rest : List ℕ) (r : ℤ)
      → s.flags.processing_error ≡ false
      → Feeds mem f bs g
      → receive_loop mem cb 0 (at_frame (set_needs_more false s) f earlier) (bs ++ rest) r
        ≡ receive_loop mem cb 0 (at_frame (set_needs_more false s) g earlier) rest r
  loop-Feeds s f g earlier [] rest r running same =
      ap (λ h. receive_loop mem cb 0 (at_frame (set_needs_more false s) h earlier) rest r) same
  loop-Feeds s f g earlier (b ∷ bs) rest r running (h, open_frame, e, fed) =
      loop_more (set_needs_more false s) f h earlier b (bs ++ rest) r running open_frame e
      ∙ loop-Feeds s h g earlier bs rest r running fed

  -- A header with all its bytes, from any state of `needs_more_data`.
  pub loop_header :
      (s : ClientState) (f g h : Frame) (earlier : List Frame) (a : ℕ) (bs : List ℕ) (k : ℕ)
      (rest : List ℕ) (r : ℤ)
      → s.flags.processing_error ≡ false
      → Feeds mem f (a ∷ bs) g
      → g.state ≢ sw_loaded_mask
      → feed mem g k ≡ ok (h, true)
      → receive_loop mem cb 0 (at_frame s f earlier) ((a ∷ bs) ++ k ∷ rest) r ≡ (
          copy_payload mem cb (set_needs_more false (at_frame s g earlier)) h earlier rest r
          >>= go_on rest)
  loop_header s f g h earlier a bs k rest r running (h1, open_frame, e, fed) open_g last =
      loop_more s f h1 earlier a (bs ++ k ∷ rest) r running open_frame e
      ∙ loop-Feeds s h1 g earlier bs (k ∷ rest) r running fed
      ∙ loop_loaded (set_needs_more false s) g h earlier k rest r running open_g last
