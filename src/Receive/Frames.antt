-- ===== src/Receive/Frames.antt =====
-- A whole masked frame on the wire reaches the function for its class, demasked.
use libwebsock.Prelude.{
  ℕ, ◌+◌, ◌-◌, ◌≤◌, ◌<◌, ◌≡◌, refl, ◌∙◌, ap, List, [], ◌∷◌, ◌++◌, arith, length, length-append,
  drop, take-length, Outcome, ok, ◌>>=◌, le→leb, lt→ltb, le→ltb, if◌then◌else◌, ℤ, is_minus_one,
  get_elem?, access, bit_or, Option, Bool-cases, inl, inr, fault, exited,
}
use libwebsock.Memory.{Allocator, byte_at}
use libwebsock.Memory.Blocks.{write_seam}
use libwebsock.Types.{ClientState, Callbacks, Frame, Reply}
use libwebsock.DefaultCallbacks.Pings.{at_frame}
use libwebsock.Receive.{
  FrameFn, Progress, again, broken, copy_payload, complete, frame_fn, frame_lookup_table,
  receive_loop, after_loop,
}
use libwebsock.Receive.Table.{table_class, lookup-class}
use libwebsock.Receive.Loop.{go_on}

module _ (mem : Allocator) (cb : Callbacks) where
  -- Bytes that `memcpy` has taken are passed over.
  loop_skip :
      (s : ClientState) (taken rest : List ℕ) (r : ℤ)
      → receive_loop mem cb (length taken) s (taken ++ rest) r ≡ receive_loop mem cb 0 s rest r
  unfolding receive_loop
  loop_skip s [] rest r = refl
  loop_skip s (b ∷ taken) rest r = loop_skip s taken rest r

  -- What follows a frame's function, at the bytes behind the frame.
  abbrev pub after_frame : List ℕ → ClientState × ℤ → Reply
  after_frame rest called =
      if is_minus_one called.1
      then ok (after_loop mem cb called.0, called.1)
      else receive_loop mem cb 0 called.0 rest called.1

  after-called :
      (m : Reply) (taken rest : List ℕ)
      → (m
          >>= (λ called.
              if is_minus_one called.1
              then ok (broken called.0 called.1)
              else ok (again called.0 (length taken) called.1))
          >>= go_on mem cb (taken ++ rest))
        ≡ (m >>= after_frame rest)
  after-called (ok (s, r)) taken rest = elim (Bool-cases (is_minus_one r)) [
    | inl ends ↦ rw ends
    | inr goes ↦ rw goes (loop_skip s taken rest r)
  ]
  after-called fault taken rest = refl
  after-called exited taken rest = refl

  pub complete-class :
      (s : ClientState) (g : Frame) (earlier : List Frame) (taken rest more : List ℕ) (a : ℕ)
      → g.rawdata ≡ a ∷ more
      → a < 256
      → (complete mem cb s g earlier (length taken) >>= go_on mem cb (taken ++ rest)) ≡ (
          frame_fn mem cb (table_class s.flags.receiving_fragment a) (at_frame s g earlier)
          >>= after_frame rest)
  unfolding complete byte_at
  complete-class s g earlier taken rest more a block small =
      ap (λ (o : Option ℕ). access o >>= looked_up >>= go_on mem cb (taken ++ rest))
        (ap (λ l. get_elem? l 0) block)
      ∙ ap (λ (o : Option FrameFn). access o >>= called >>= go_on mem cb (taken ++ rest))
          (lookup-class s.flags.receiving_fragment a small)
      ∙ after-called
          (frame_fn mem cb (table_class s.flags.receiving_fragment a) (at_frame s g earlier)) taken
          rest
    where
      called : FrameFn → Outcome Progress
      called fn = frame_fn mem cb fn (at_frame s g earlier) >>= (λ called.
          if is_minus_one called.1
          then ok (broken called.0 called.1)
          else ok (again called.0 (length taken) called.1))

      looked_up : ℕ → Outcome Progress
      looked_up b =
          access (
            get_elem? frame_lookup_table (bit_or (if s.flags.receiving_fragment then 256 else 0) b))
          >>= called

  -- A complete header in front of the whole payload, which is there to be copied.
  pub copy-class :
      (s : ClientState) (g : Frame) (earlier : List Frame) (got' free m rest : List ℕ) (a n : ℕ)
      (r : ℤ)
      → a < 256
      → n ≡ length (a ∷ got') + length m
      → length m ≤ length free
      → (copy_payload mem cb s
            (record g { rawdata = (a ∷ got') ++ free; rawdata_idx = length (a ∷ got'); size = n })
            earlier
            (m ++ rest)
            r
          >>= go_on mem cb (m ++ rest))
        ≡ (frame_fn mem cb (table_class s.flags.receiving_fragment a) (
              at_frame s
                (record g {
                  rawdata = (a ∷ got') ++ (m ++ drop (length m) free);
                  rawdata_idx = n;
                  size = n;
                })
                earlier)
            >>= after_frame rest)
  unfolding copy_payload
  copy-class s g earlier got' free [] rest a n r small size room =
      let e : length (a ∷ got') ≡ n = omega arith in
      rw (le→ltb (length (a ∷ got')) n (omega arith)) (
        ap
          (λ k.
            complete mem cb s (record g { rawdata = (a ∷ got') ++ free; rawdata_idx = k; size = n })
              earlier 0
            >>= go_on mem cb rest)
          e
        ∙ complete-class s (record g { rawdata = (a ∷ got') ++ free; rawdata_idx = n; size = n })
            earlier [] rest (got' ++ free) a refl small)
  copy-class s g earlier got' free (p ∷ m) rest a n r small size room =
      let e : n - length (a ∷ got') ≡ length (p ∷ m) = omega arith in
      rw
        (
          lt→ltb (length (a ∷ got')) n (omega arith),
          e,
          le→leb (length (p ∷ m)) (length ((p ∷ m) ++ rest))
              (omega (arith, length-append (p ∷ m) rest)),
          take-length (p ∷ m) rest,
          write_seam (length (a ∷ got')) (a ∷ got') free (p ∷ m) refl room,
        )
        (complete-class s
          (record g {
            rawdata = (a ∷ got') ++ ((p ∷ m) ++ drop (length (p ∷ m)) free);
            rawdata_idx = n;
            size = n;
          })
          earlier (p ∷ m) rest _ a refl small)
