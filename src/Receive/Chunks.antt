-- ===== src/Receive/Chunks.antt =====
-- The bytes of two calls of `libwebsock_handle_recv` against those of one call.
use libwebsock.Prelude.{
  ℕ, zero, suc, ◌+◌, ◌≡◌, refl, ◌∙◌, ap, sym, Bool, true, false, List, [], ◌∷◌, ◌++◌, Outcome, ok,
  ◌>>=◌, >>=-assoc, >>=-cong, bind_under, Yields, bind_under-Yields, if◌then◌else◌, ℤ, pos,
  Bool-cases, inl, inr,
}
use libwebsock.Memory.{Allocator, write}
use libwebsock.Types.{
  ClientState, Callbacks, Frame, FrameState, sw_start, sw_got_two, sw_got_short_len,
  sw_got_full_len, sw_loaded_mask,
}
use libwebsock.Header.Loaded.{IsLoaded, LoadedIfRead, read_header-LoadedIfRead}
use libwebsock.Receive.{
  Progress, again, broken, returned, is_loaded, current_chain, set_needs_more, copy_payload,
  header_read, store_byte, receive_step, receive_loop,
}
use libwebsock.Receive.Loop.{go_on}
use libwebsock.Receive.Split.{copy_payload-more}

pub IsLoaded→eq : (st : FrameState) → IsLoaded st → is_loaded st ≡ true
IsLoaded→eq sw_loaded_mask h = refl
IsLoaded→eq sw_start h = absurd h
IsLoaded→eq sw_got_two h = absurd h
IsLoaded→eq sw_got_short_len h = absurd h
IsLoaded→eq sw_got_full_len h = absurd h

pub eq→IsLoaded : (st : FrameState) → is_loaded st ≡ true → IsLoaded st
eq→IsLoaded sw_loaded_mask h = tt
eq→IsLoaded sw_start h = cc
eq→IsLoaded sw_got_two h = cc
eq→IsLoaded sw_got_short_len h = cc
eq→IsLoaded sw_got_full_len h = cc

module _ (mem : Allocator) (cb : Callbacks) where
  header_read-LoadedIfRead : (f : Frame) → Yields LoadedIfRead (header_read mem cb f)
  unfolding header_read
  header_read-LoadedIfRead f = elim (Bool-cases (is_loaded f.state)) [
    | inl loaded ↦ rw loaded (eq→IsLoaded f.state loaded)
    | inr open_frame ↦ rw open_frame (read_header-LoadedIfRead mem f)
  ]

  -- What follows the header, by whether it is read.
  abbrev pub behind_header : ClientState → List Frame → List ℕ → ℤ → Frame × Bool → Outcome Progress
  behind_header s earlier rest r header =
      if header.1
      then copy_payload mem cb s header.0 earlier rest r
      else ok (again (record s { current_frame = header.0 ∷ earlier }) 0 r)

  module _ (s0 : ClientState) (c : ℕ) (xs ys : List ℕ) (r : ℤ)
      (running : s0.flags.processing_error ≡ false) where
    behind_header-more :
        (earlier : List Frame) (header : Frame × Bool)
        → LoadedIfRead header
        → (behind_header (set_needs_more false s0) earlier (xs ++ c ∷ ys) r header
            >>= go_on mem cb (xs ++ c ∷ ys))
          ≡ (behind_header (set_needs_more false s0) earlier xs r header
              >>= go_on mem cb (xs ++ c ∷ ys))
    behind_header-more earlier (f, true) loaded =
        copy_payload-more mem cb s0 f earlier c xs ys r running (IsLoaded→eq f.state loaded)
    behind_header-more earlier (f, false) loaded = refl

    store_byte-more :
        (chain : List Frame) (b : ℕ)
        → (store_byte mem cb (set_needs_more false s0) chain b (xs ++ c ∷ ys) r
            >>= go_on mem cb (xs ++ c ∷ ys))
          ≡ (store_byte mem cb (set_needs_more false s0) chain b xs r
              >>= go_on mem cb (xs ++ c ∷ ys))
    unfolding store_byte
    store_byte-more [] b = refl
    store_byte-more (f ∷ earlier) b =
        let go = go_on mem cb (xs ++ c ∷ ys) in
        let s = set_needs_more false s0 in
        let stored = λ (block : List ℕ).
          header_read mem cb (record f { rawdata = block; rawdata_idx = f.rawdata_idx + 1 }) in
        bind_under (write f.rawdata f.rawdata_idx (b ∷ []))
          (λ block. stored block >>= behind_header s earlier (xs ++ c ∷ ys) r)
          (λ block. stored block >>= behind_header s earlier xs r) go go
          (λ block.
            bind_under-Yields LoadedIfRead (stored block) (behind_header s earlier (xs ++ c ∷ ys) r)
              (behind_header s earlier xs r) go go (header_read-LoadedIfRead _)
              (behind_header-more earlier))

  receive_step-more :
      (s : ClientState) (b c : ℕ) (xs ys : List ℕ) (r : ℤ)
      → (receive_step mem cb s b (xs ++ c ∷ ys) r >>= go_on mem cb (xs ++ c ∷ ys))
        ≡ (receive_step mem cb s b xs r >>= go_on mem cb (xs ++ c ∷ ys))
  unfolding receive_step
  receive_step-more s b c xs ys r =
      let guarded = λ (t : Bool) (o : Outcome Progress).
        (if t then ok (returned s (pos 0)) else o) >>= go_on mem cb (xs ++ c ∷ ys) in
      let store = λ (bs : List ℕ).
        store_byte mem cb (set_needs_more false s) (current_chain s.current_frame) b bs r in
      elim (Bool-cases s.flags.processing_error) [
        | inl failed ↦
            ap (λ t. guarded t (store (xs ++ c ∷ ys))) failed
            ∙ sym (ap (λ t. guarded t (store xs)) failed)
        | inr running ↦
            ap (λ t. guarded t (store (xs ++ c ∷ ys))) running
            ∙ store_byte-more s c xs ys r running (current_chain s.current_frame) b
            ∙ sym (ap (λ t. guarded t (store xs)) running)
      ]

  -- How the loop stands when the bytes are used up, or how it ended before.
  unfoldable pub receive_progress : ℕ → ClientState → List ℕ → ℤ → Outcome Progress
  receive_progress skip s [] r = ok (again s skip r)
  receive_progress (suc skip) s (b ∷ bs) r = receive_progress skip s bs r
  receive_progress zero s (b ∷ bs) r = receive_step mem cb s b bs r >>= (λ progress. elim progress [
    | again s' skip r' ↦ receive_progress skip s' bs r'
    | broken s' r' ↦ ok (broken s' r')
    | returned s' r' ↦ ok (returned s' r')
  ])

  -- The progress behind an iteration.
  abbrev follow : List ℕ → Progress → Outcome Progress
  follow bs progress = elim progress [
    | again s' skip r' ↦ receive_progress skip s' bs r'
    | broken s' r' ↦ ok (broken s' r')
    | returned s' r' ↦ ok (returned s' r')
  ]

  follow-go_on :
      (xs : List ℕ) (c : ℕ) (ys : List ℕ)
      → ((skip : ℕ) (s : ClientState) (r : ℤ)
          → receive_loop mem cb skip s (xs ++ c ∷ ys) r
            ≡ (receive_progress skip s xs r >>= go_on mem cb (c ∷ ys)))
      → (p : Progress) → go_on mem cb (xs ++ c ∷ ys) p ≡ (follow xs p >>= go_on mem cb (c ∷ ys))
  follow-go_on xs c ys ih (again s' k r') = ih k s' r'
  follow-go_on xs c ys ih (broken s' r') = refl
  follow-go_on xs c ys ih (returned s' r') = refl

  follow-end :
      (xs : List ℕ)
      → ((skip : ℕ) (s : ClientState) (r : ℤ)
          → receive_loop mem cb skip s xs r ≡ (receive_progress skip s xs r >>= go_on mem cb []))
      → (p : Progress) → go_on mem cb xs p ≡ (follow xs p >>= go_on mem cb [])
  unfolding receive_loop
  follow-end xs ih (again s' k r') = ih k s' r'
  follow-end xs ih (broken s' r') = refl
  follow-end xs ih (returned s' r') = refl

  -- The loop on the bytes of two calls goes on from where the loop on those of the first stands.
  pub loop-append :
      (skip : ℕ) (s : ClientState) (xs : List ℕ) (c : ℕ) (ys : List ℕ) (r : ℤ)
      → receive_loop mem cb skip s (xs ++ c ∷ ys) r
        ≡ (receive_progress skip s xs r >>= go_on mem cb (c ∷ ys))
  unfolding receive_loop receive_progress
  loop-append skip s [] c ys r = refl
  loop-append (suc skip) s (b ∷ xs) c ys r = loop-append skip s xs c ys r
  loop-append zero s (b ∷ xs) c ys r =
      receive_step-more s b c xs ys r
      ∙ >>=-cong (receive_step mem cb s b xs r) _ _
          (follow-go_on xs c ys (λ k s' r'. loop-append k s' xs c ys r'))
      ∙ sym (>>=-assoc (receive_step mem cb s b xs r) (follow xs) (go_on mem cb (c ∷ ys)))

  -- A whole call of the loop ends by what its progress says.
  pub loop-progress :
      (skip : ℕ) (s : ClientState) (xs : List ℕ) (r : ℤ)
      → receive_loop mem cb skip s xs r ≡ (receive_progress skip s xs r >>= go_on mem cb [])
  unfolding receive_loop receive_progress
  loop-progress skip s [] r = refl
  loop-progress (suc skip) s (b ∷ xs) r = loop-progress skip s xs r
  loop-progress zero s (b ∷ xs) r =
      >>=-cong (receive_step mem cb s b xs r) _ _
        (follow-end xs (λ k s' r'. loop-progress k s' xs r'))
      ∙ sym (>>=-assoc (receive_step mem cb s b xs r) (follow xs) (go_on mem cb []))
