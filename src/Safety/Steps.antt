-- ===== src/Safety/Steps.antt =====
-- One iteration of the loop of `libwebsock_handle_recv` keeps a client well.
use mathlib.Core.Path.{subst}
use libwebsock.Prelude.{
  sym, ℕ, ◌+◌, ◌-◌, ◌^◌, ◌<◌, ◌≡◌, refl, Bool, true, false, List, [], ◌∷◌, arith, All, length,
  length-take, take, get_or, ok, Safely, >>=-Safely, ltb, leb, ◌==◌, if◌then◌else◌, Bool-cases, inl,
  inr, ℤ, is_minus_one,
}
use libwebsock.Memory.{Allocator, write}
use libwebsock.Types.{
  ClientState, Callbacks, Frame, FrameState, sw_start, sw_got_two, sw_got_short_len,
  sw_got_full_len, sw_loaded_mask,
}
use libwebsock.Header.{read_header}
use libwebsock.Dispatch.Masking.{Octets, get_or-lt}
use libwebsock.DefaultCallbacks.Pings.{at_frame}
use libwebsock.Receive.{
  FrameFn, dispatch, control, continuation, fail, null, frame_fn, Progress, again, broken, returned,
  is_loaded, complete, copy_payload, header_read, store_byte,
}
use libwebsock.Receive.Table.{table_class, lookup-class}
use libwebsock.Safety.{
  IsBounded, IsBlock, IsDone, IsOpenAt, IsWellChain, IsWell, Holding, KeepsSafe, first_of,
}
use libwebsock.Safety.Blocks.{All-take, byte_at-first, write-Safely, Written}
use libwebsock.Safety.Header.{HeaderStep, IsStored, read_header-Safely}
use libwebsock.Safety.Frames.{
  fail_and_cleanup-Safely, new_continuation_frame-Safely, handle_control_frame-Safely,
  dispatch_message-Safely,
}
use libwebsock.Safety.Allowed.{frame_start, takes}

-- A byte stored in an open frame is inside its block.
open_inside :
    (st : FrameState) (f : Frame) → IsBlock f → IsOpenAt st f → f.rawdata_idx < length f.rawdata
open_inside sw_start f block h = omega (arith, block.room)
open_inside sw_got_two f block h = absurd h
open_inside sw_got_short_len f block h = omega (arith, block.room)
open_inside sw_got_full_len f block h = omega (arith, block.room)
open_inside sw_loaded_mask f block h = omega (arith, h.1, h.2)

module _ (mem : Allocator) (bounded : IsBounded mem) (v : ℕ) where
  header_read_at :
      (st : FrameState) (f : Frame)
      → f.state ≡ st
      → IsStored mem bounded v f.state f
      → IsBlock f
      → first_of f ≡ v
      → 0 < f.rawdata_idx
      → Safely (HeaderStep v) (if is_loaded st then ok (f, true) else read_header mem f)
  header_read_at sw_loaded_mask f st stored block first begun =
      let (room, done) = subst (λ s. IsStored mem bounded v s f) st stored in
      (block, done, st, room, begun, first)
  header_read_at sw_start f st stored block first begun =
      read_header-Safely mem bounded v f stored block first begun
  header_read_at sw_got_two f st stored block first begun =
      read_header-Safely mem bounded v f stored block first begun
  header_read_at sw_got_short_len f st stored block first begun =
      read_header-Safely mem bounded v f stored block first begun
  header_read_at sw_got_full_len f st stored block first begun =
      read_header-Safely mem bounded v f stored block first begun

-- A frame whose block was written.
module _ (f : Frame) (at : ℕ) (bytes out : List ℕ) (w : Written f.rawdata at bytes out)
    (idx : ℕ) where
  abbrev rewritten : Frame
  rewritten = record f { rawdata = out; rawdata_idx = idx }

  written-IsBlock : IsBlock f → IsBlock rewritten
  written-IsBlock block = record {
    sized = omega (arith, block.sized, w.same_size);
    room = omega (arith, block.room, w.same_size);
    bytes = w.octets;
  }

  written-IsDone : IsDone f → IsDone rewritten
  written-IsDone done = record {
    bytes = w.octets;
    key = done.key;
    below = done.below;
    inside = λ small. omega (arith, done.inside small, w.same_size);
  }

  written-IsStored :
      (mem : Allocator) (bounded : IsBounded mem) (v : ℕ) (st : FrameState)
      → IsOpenAt st f
      → idx ≡ f.rawdata_idx + 1
      → IsStored mem bounded v st rewritten
  written-IsStored mem bounded v sw_start h e = omega arith
  written-IsStored mem bounded v sw_got_two h e = absurd h
  written-IsStored mem bounded v sw_got_short_len (a, b, c, d) e = (c, d)
  written-IsStored mem bounded v sw_got_full_len (a, b, c, d, l) e = (c, d, l)
  written-IsStored mem bounded v sw_loaded_mask (a, b, c, d) e =
      (omega (arith, w.same_size), written-IsDone d)

-- What an iteration leaves.
abbrev pub Goes : Holding → Progress → Type 0
Goes J (again s k r) = IsWell J s
Goes J (broken s r) = IsWell J s
Goes J (returned s r) = IsWell J s

-- What a call leaves.
abbrev pub Kept : Holding → ClientState × ℤ → Type 0
Kept J called = IsWell J called.0

module _ (mem : Allocator) (cb : Callbacks) (J : Holding) (bounded : IsBounded mem)
    (keeps : KeepsSafe J cb) where
  frame_fn-Safely :
      (fn : FrameFn) (s : ClientState) (f : Frame) (earlier : List Frame)
      → takes s.flags.sent_close_frame fn ≡ true
      → IsBlock f
      → All IsDone (f ∷ earlier)
      → length (f ∷ earlier) < 2 ^ 32
      → J s.out_data s.close_info
      → Safely (Kept J) (frame_fn mem cb fn (at_frame s f earlier))
  unfolding frame_fn
  frame_fn-Safely dispatch s f earlier taken block done few j =
      dispatch_message-Safely mem cb J bounded keeps s f earlier (ground (arith, taken)) done few j
  frame_fn-Safely control s f earlier taken block done few j =
      handle_control_frame-Safely mem cb J bounded keeps s f earlier block done j
  frame_fn-Safely continuation s f earlier taken block done few j =
      new_continuation_frame-Safely mem cb J bounded keeps s f earlier done j
  frame_fn-Safely fail s f earlier taken block done few j =
      fail_and_cleanup-Safely mem cb J bounded keeps (at_frame s f earlier) j
  frame_fn-Safely null s f earlier taken block done few j = absurd (ground (arith, taken))

  complete-Safely :
      (s : ClientState) (f : Frame) (earlier : List Frame) (skip : ℕ)
      → takes s.flags.sent_close_frame (table_class s.flags.receiving_fragment (first_of f)) ≡ true
      → IsBlock f
      → All IsDone (f ∷ earlier)
      → length (f ∷ earlier) < 2 ^ 32
      → J s.out_data s.close_info
      → Safely (Goes J) (complete mem cb s f earlier skip)
  unfolding complete
  complete-Safely s f earlier skip taken block done few j =
      rw
        (
          byte_at-first f.rawdata (omega (arith, block.room)),
          lookup-class s.flags.receiving_fragment (first_of f) (get_or-lt f.rawdata 0 block.bytes),
        )
        (>>=-Safely (Kept J) (Goes J)
          (frame_fn mem cb (table_class s.flags.receiving_fragment (first_of f))
            (at_frame s f earlier))
          _ (frame_fn-Safely _ s f earlier taken block done few j)
          (λ called well. elim (Bool-cases (is_minus_one called.1)) [
            | inl stops ↦ rw stops well
            | inr goes ↦ rw goes well
          ]))

  copy_payload-Safely :
      (s : ClientState) (f : Frame) (earlier : List Frame) (rest : List ℕ) (r : ℤ)
      → takes s.flags.sent_close_frame (table_class s.flags.receiving_fragment (first_of f)) ≡ true
      → HeaderStep (first_of f) (f, true)
      → All IsDone earlier
      → length (f ∷ earlier) < 2 ^ 32
      → Octets rest
      → J s.out_data s.close_info
      → Safely (Goes J) (copy_payload mem cb s f earlier rest r)
  unfolding copy_payload
  copy_payload-Safely s f earlier rest r taken (block, done, st, room, begun, same) before few
        octets j =
      let n = f.size - f.rawdata_idx in
      elim (Bool-cases (ltb f.rawdata_idx f.size)) [
        | inr none_left ↦
            rw none_left (complete-Safely s f earlier 0 taken block (done, before) few j)
        | inl more ↦ rw more (elim (Bool-cases (leb n (length rest))) [
          | inl there ↦ rw there (
              >>=-Safely (Written f.rawdata f.rawdata_idx (take n rest)) (Goes J)
                (write f.rawdata f.rawdata_idx (take n rest)) _
                (write-Safely f.rawdata f.rawdata_idx (take n rest)
                  (ground (arith, more, there, room, length-take n rest)) block.bytes
                  (All-take (λ b. b < 256) n rest octets))
                (λ out w.
                  complete-Safely s (record f { rawdata = out; rawdata_idx = f.size }) earlier n
                    (subst
                      (λ b.
                        takes s.flags.sent_close_frame (table_class s.flags.receiving_fragment b)
                        ≡ true)
                      (sym (w.first begun)) taken)
                    (written-IsBlock f f.rawdata_idx (take n rest) out w f.size block)
                    (written-IsDone f f.rawdata_idx (take n rest) out w f.size done, before) few j))
          | inr part ↦ rw part (
              >>=-Safely (Written f.rawdata f.rawdata_idx rest) (Goes J)
                (write f.rawdata f.rawdata_idx rest) _
                (write-Safely f.rawdata f.rawdata_idx rest (ground (arith, more, part, room))
                  block.bytes octets)
                (λ out w.
                  let g = record f { rawdata = out; rawdata_idx = f.rawdata_idx + length rest } in
                  (
                    (
                      written-IsBlock f f.rawdata_idx rest out w (f.rawdata_idx + length rest)
                          block,
                      subst (λ t. IsOpenAt t g) (sym st)
                          (
                            omega (arith, begun),
                            ground (arith, more, part),
                            omega (arith, room, w.same_size),
                            written-IsDone f f.rawdata_idx rest out w (f.rawdata_idx + length rest)
                                done,
                          ),
                      before,
                    ),
                    j,
                  )))
        ])
      ]

  pub store_byte-Safely :
      (s : ClientState) (f : Frame) (earlier : List Frame) (b : ℕ) (rest : List ℕ) (r : ℤ)
      → takes s.flags.sent_close_frame
          (table_class s.flags.receiving_fragment (frame_start (f ∷ earlier) b))
        ≡ true
      → IsWellChain (f ∷ earlier)
      → length (f ∷ earlier) < 2 ^ 32
      → Octets (b ∷ rest)
      → J s.out_data s.close_info
      → Safely (Goes J) (store_byte mem cb s (f ∷ earlier) b rest r)
  unfolding store_byte header_read
  store_byte-Safely s f earlier b rest r taken (block, opened, before) few octets j =
      let v = frame_start (f ∷ earlier) b in
      >>=-Safely (Written f.rawdata f.rawdata_idx (b ∷ [])) (Goes J)
        (write f.rawdata f.rawdata_idx (b ∷ [])) _
        (write-Safely f.rawdata f.rawdata_idx (b ∷ [])
          (omega (arith, open_inside f.state f block opened)) block.bytes (octets.0, tt))
        (λ out w.
          let g = record f { rawdata = out; rawdata_idx = f.rawdata_idx + 1 } in
          >>=-Safely (HeaderStep v) (Goes J)
            (if is_loaded f.state then ok (g, true) else read_header mem g) _
            (header_read_at mem bounded v f.state g refl
              (written-IsStored f f.rawdata_idx (b ∷ []) out w (f.rawdata_idx + 1) mem bounded v
                f.state opened refl)
              (written-IsBlock f f.rawdata_idx (b ∷ []) out w (f.rawdata_idx + 1) block)
              (starts f b out w) (omega arith))
            (λ header step. behind header step))
    where
      starts :
          (f : Frame) (b : ℕ) (out : List ℕ)
          → Written f.rawdata f.rawdata_idx (b ∷ []) out
          → get_or out 0 0 ≡ (if f.rawdata_idx == 0 then b else first_of f)
      starts f b out w = elim (Bool-cases (f.rawdata_idx == 0)) [
        | inl fresh ↦ rw fresh (w.first_new (ground (arith, fresh)))
        | inr later ↦ rw later (w.first (ground (arith, later)))
      ]

      behind :
          (header : Frame × Bool)
          → HeaderStep (frame_start (f ∷ earlier) b) header
          → Safely (Goes J) (
              if header.1
              then copy_payload mem cb s header.0 earlier rest r
              else ok (again (record s { current_frame = header.0 ∷ earlier }) 0 r))
      behind (h, true) (blk, done, st, room, begun, same) =
          copy_payload-Safely s h earlier rest r
            (subst
              (λ b.
                takes s.flags.sent_close_frame (table_class s.flags.receiving_fragment b) ≡ true)
              (sym same) taken)
            (blk, done, st, room, begun, refl) before few octets.1 j
      behind (h, false) (blk, opened, same) = ((blk, opened, before), j)
