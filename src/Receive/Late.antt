-- ===== src/Receive/Late.antt =====
-- A message that ends after a close frame was sent stays in the chain, and the bytes behind it run
-- out of its block.
use libwebsock.Prelude.{
  ℕ, suc, ◌+◌, ◌≤◌, ◌<◌, ◌≡◌, refl, ◌∙◌, ap, true, false, List, [], ◌∷◌, ◌++◌, arith, length, take,
  drop, length-take, length-drop, length-append, Outcome, ok, fault, ◌>>=◌, le→ltb, ◌-◌, >>=-assoc,
  >>=-cong, leb, if◌then◌else◌, Bool-cases, inl, inr, ℤ, pos,
}
use libwebsock.Memory.{Allocator, write}
use libwebsock.Types.{ClientState, Callbacks, Frame, Reply, sw_loaded_mask}
use libwebsock.Dispatch.{dispatch_message, end_fragment}
use libwebsock.DefaultCallbacks.Pings.{at_frame}
use libwebsock.Receive.{
  Progress, again, returned, dispatch, frame_fn, set_needs_more, complete, copy_payload,
  header_read, store_byte, receive_step, receive_loop,
}
use libwebsock.Receive.Table.{table_class}
use libwebsock.Receive.Loop.{go_on}
use libwebsock.Receive.Frames.{complete-class, after_frame}

-- A client that has sent a close frame, is in no fragmented message and has not failed.
pub record IsLateClient (s : ClientState) : Type 0 where
  pub sent : s.flags.sent_close_frame ≡ true
  pub outside : s.flags.receiving_fragment ≡ false
  pub running : s.flags.processing_error ≡ false

-- A frame that is complete, whose first byte is that of a final data frame.
pub record IsLateFrame (f : Frame) : Type 0 where
  pub more : List ℕ
  pub first : ℕ
  pub block : f.rawdata ≡ first ∷ more
  pub byte : first < 256
  pub message : table_class false first ≡ dispatch
  pub loaded : f.state ≡ sw_loaded_mask
  pub whole : f.size ≤ f.rawdata_idx
  pub begun : 0 < f.rawdata_idx

module _ (mem : Allocator) (cb : Callbacks) (earlier : List Frame) where
  dispatch-late :
      (s : ClientState) (f : Frame)
      → IsLateClient s
      → frame_fn mem cb dispatch (at_frame s f earlier)
        ≡ ok (end_fragment (at_frame s f earlier), pos 0)
  unfolding frame_fn dispatch_message
  dispatch-late s f late = ground (arith, late.sent)

  complete-late :
      (s : ClientState) (f : Frame) (bytes : List ℕ)
      → IsLateClient s
      → IsLateFrame f
      → (complete mem cb s f earlier 0 >>= go_on mem cb bytes)
        ≡ receive_loop mem cb 0 (at_frame (end_fragment s) f earlier) bytes (pos 0)
  complete-late s f bytes late frame =
      complete-class mem cb s f earlier [] bytes frame.more frame.first frame.block frame.byte
      ∙ ap (λ fn. frame_fn mem cb fn (at_frame s f earlier) >>= after_frame mem cb bytes)
          (ap (λ inside. table_class inside frame.first) late.outside ∙ frame.message)
      ∙ ap (λ (o : Reply). o >>= after_frame mem cb bytes) (dispatch-late s f late)

  -- What follows the write of a byte behind the frame.
  write-late :
      (s : ClientState) (f : Frame) (bytes block : List ℕ) (r : ℤ)
      → IsLateFrame f
      → (header_read mem cb (record f { rawdata = block; rawdata_idx = f.rawdata_idx + 1 })
          >>= (λ header.
              if header.1
              then copy_payload mem cb s header.0 earlier bytes r
              else ok (again (record s { current_frame = header.0 ∷ earlier }) 0 r)))
        ≡ complete mem cb s
            (record f { rawdata = block; rawdata_idx = f.rawdata_idx + 1 })
            earlier
            0
  unfolding header_read copy_payload
  write-late s f bytes block r frame =
      let g = record f { rawdata = block; rawdata_idx = f.rawdata_idx + 1 } in
      rw (frame.loaded, le→ltb (f.rawdata_idx + 1) f.size (omega (arith, frame.whole))) refl

  loop-late :
      (s : ClientState) (f : Frame) (b : ℕ) (bytes : List ℕ) (r : ℤ)
      → IsLateClient s
      → IsLateFrame f
      → receive_loop mem cb 0 (at_frame s f earlier) (b ∷ bytes) r ≡ (
          write f.rawdata f.rawdata_idx (b ∷ []) >>= (λ block.
            complete mem cb
              (set_needs_more false (at_frame s f earlier))
              (record f { rawdata = block; rawdata_idx = f.rawdata_idx + 1 })
              earlier
              0
            >>= go_on mem cb bytes))
  unfolding receive_loop receive_step store_byte
  loop-late s f b bytes r late frame =
      let t = at_frame s f earlier in
      ap
        (λ failed.
          (if failed
            then ok (returned t (pos 0))
            else store_byte mem cb (set_needs_more false t) (f ∷ earlier) b bytes r)
          >>= go_on mem cb bytes)
        late.running
      ∙ >>=-assoc (write f.rawdata f.rawdata_idx (b ∷ [])) _ (go_on mem cb bytes)
      ∙ >>=-cong (write f.rawdata f.rawdata_idx (b ∷ [])) _ _ (λ block.
        ap (λ (o : Outcome Progress). o >>= go_on mem cb bytes)
          (write-late (set_needs_more false t) f bytes block r frame))

  -- The frame with a byte behind it.
  module _ (f : Frame) (b : ℕ) (frame : IsLateFrame f) where
    abbrev longer : Frame
    longer = record f {
      rawdata = take f.rawdata_idx f.rawdata ++ (b ∷ drop (f.rawdata_idx + 1) f.rawdata);
      rawdata_idx = f.rawdata_idx + 1;
    }

    longer-block :
        (n : ℕ)
        → 0 < n
        → take n f.rawdata ++ (b ∷ drop (n + 1) f.rawdata)
          ≡ frame.first ∷ (take (n - 1) frame.more ++ (b ∷ drop (n + 1) f.rawdata))
    longer-block n h =
        let e : n ≡ suc (n - 1) = omega arith in
        ap (λ xs. take n xs ++ (b ∷ drop (n + 1) f.rawdata)) frame.block
        ∙ ap (λ m. take m (frame.first ∷ frame.more) ++ (b ∷ drop (n + 1) f.rawdata)) e

    longer-IsLateFrame : IsLateFrame longer
    longer-IsLateFrame = record {
      more = take (f.rawdata_idx - 1) frame.more ++ (b ∷ drop (f.rawdata_idx + 1) f.rawdata);
      first = frame.first;
      block = longer-block f.rawdata_idx frame.begun;
      byte = frame.byte;
      message = frame.message;
      loaded = frame.loaded;
      whole = omega (arith, frame.whole);
      begun = omega arith;
    }

  loop-overflow :
      (s : ClientState) (f : Frame) (bytes : List ℕ) (r : ℤ)
      → IsLateClient s
      → IsLateFrame f
      → f.rawdata_idx ≤ length f.rawdata
      → length f.rawdata < f.rawdata_idx + length bytes
      → receive_loop mem cb 0 (at_frame s f earlier) bytes r ≡ fault
  unfolding write
  loop-overflow s f [] r late frame inside beyond = absurd (omega arith)
  loop-overflow s f (b ∷ bytes) r late frame inside beyond =
      elim (Bool-cases (leb (f.rawdata_idx + 1) (length f.rawdata))) [
        | inr full ↦ loop-late s f b bytes r late frame ∙ rw full refl
        | inl room ↦
            let rest =
              loop-overflow (end_fragment (set_needs_more false s)) (longer f b frame) bytes (pos 0)
                (record { sent = late.sent; outside = refl; running = late.running })
                (longer-IsLateFrame f b frame) (ground (arith, room, longer_length f b room))
                (omega (arith, longer_length f b room)) in
            loop-late s f b bytes r late frame
            ∙ rw room (
                complete-late (set_needs_more false (at_frame s f earlier)) (longer f b frame) bytes
                  (record { sent = late.sent; outside = late.outside; running = late.running })
                  (longer-IsLateFrame f b frame)
                ∙ rest)
      ]
    where
      longer_length :
          (f : Frame) (b : ℕ)
          → leb (f.rawdata_idx + 1) (length f.rawdata) ≡ true
          → length (take f.rawdata_idx f.rawdata ++ (b ∷ drop (f.rawdata_idx + 1) f.rawdata))
            ≡ length f.rawdata
      longer_length f b room = ground (
        arith,
        length-append (take f.rawdata_idx f.rawdata) (b ∷ drop (f.rawdata_idx + 1) f.rawdata),
        length-take f.rawdata_idx f.rawdata,
        length-drop (f.rawdata_idx + 1) f.rawdata,
      )

  -- A final data frame that is complete, outside a fragmented message, on a client that has sent
  -- a close frame and has not failed, is not taken out of the chain: as soon as more bytes follow
  -- it than its block has left, one of them is written outside the block.
  pub complete-overflow :
      (s : ClientState) (f : Frame) (bytes : List ℕ)
      → IsLateClient s
      → IsLateFrame f
      → f.rawdata_idx ≤ length f.rawdata
      → length f.rawdata < f.rawdata_idx + length bytes
      → (complete mem cb s f earlier 0 >>= go_on mem cb bytes) ≡ fault
  complete-overflow s f bytes late frame inside beyond =
      complete-late s f bytes late frame
      ∙ loop-overflow (end_fragment s) f bytes (pos 0)
          (record { sent = late.sent; outside = refl; running = late.running }) frame inside beyond
