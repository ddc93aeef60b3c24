-- ===== src/Receive/Arrival.antt =====
-- A masked frame of RFC 6455 among the received bytes: from the wire to the frame's function.
use mathlib.Core.Path.{subst}
use libwebsock.Prelude.{
  fault, true, le→leb, ℕ, suc, ◌+◌, ◌^◌, ◌≤◌, ◌<◌, ◌≡◌, refl, ◌∙◌, ap, sym, true, false, List, [],
  ◌∷◌, ◌++◌, arith, append_assoc, length, length-append, length-drop, drop, ok, ◌>>=◌, ℤ, bit_and,
  split_at,
}
use libwebsock.Memory.{Allocator}
use libwebsock.Types.{ClientState, Callbacks, Frame, sw_start}
use libwebsock.Wire.{client_frame, masked, length_field, big_endian}
use libwebsock.Header.Grow.{grow_lem}
use libwebsock.Header.Feed.{feed, holding, loaded, feed-key_last}
use libwebsock.Header.Whole.{header_fed, key_pending, second}
use libwebsock.Dispatch.Masking.{Octets, demask-masked}
use libwebsock.DefaultCallbacks.Carried.{Carries}
use libwebsock.DefaultCallbacks.Pings.{at_frame}
use libwebsock.Receive.{null, set_needs_more, frame_fn, receive_loop}
use libwebsock.Receive.Table.{table_class}
use libwebsock.Receive.Loop.{loop_header}
use libwebsock.Receive.Frames.{after_frame, copy-class}

length_field-bounds :
    (n : ℕ) → (1 ≤ length (length_field 128 n)) × (length (length_field 128 n) ≤ 9)
unfolding length_field big_endian
length_field-bounds n = ground arith

length-masked : (k0 k1 k2 k3 : ℕ) (ps : List ℕ) → length (masked k0 k1 k2 k3 ps) ≡ length ps
unfolding masked
length-masked k0 k1 k2 k3 [] = refl
length-masked k0 k1 k2 k3 (p ∷ ps) = ap suc (length-masked k1 k2 k3 k0 ps)

client_frame-split :
    (a k0 k1 k2 k3 : ℕ) (payload rest : List ℕ)
    → client_frame a k0 k1 k2 k3 payload ++ rest
      ≡ (a ∷ (length_field 128 (length payload) ++ k0 ∷ k1 ∷ k2 ∷ []))
        ++ k3 ∷ (masked k0 k1 k2 k3 payload ++ rest)
unfolding client_frame
client_frame-split a k0 k1 k2 k3 payload rest =
    ap (λ l. a ∷ l)
      (append_assoc (length_field 128 (length payload))
          (k0 ∷ k1 ∷ k2 ∷ k3 ∷ masked k0 k1 k2 k3 payload) rest
        ∙ sym (
            append_assoc (length_field 128 (length payload)) (k0 ∷ k1 ∷ k2 ∷ [])
              (k3 ∷ (masked k0 k1 k2 k3 payload ++ rest))))

-- What a client needs in order to take in a frame of `n` bytes of payload: no failure before, a
-- frame that waits for its first byte, its block of `rawdata_sz` bytes, and memory for the frame.
pub record CanReceive (mem : Allocator) (s : ClientState) (f : Frame) (block : List ℕ) (n : ℕ)
    : Type 0 where
  pub running : s.flags.processing_error ≡ false
  pub start : f.state ≡ sw_start
  pub sized : f.rawdata_sz ≡ length block
  pub room : 14 ≤ length block
  pub small : 14 + n ≤ 2 ^ 30
  pub grants : (m : ℕ) → m ≤ 2 ^ 30 → mem.fits m ≡ true

-- The frame that the bytes of a masked frame leave.
pub record Arrived (a : ℕ) (payload : List ℕ) (g : Frame) : Type 0 where
  pub header : List ℕ
  pub free : List ℕ
  pub carries : Carries g header payload free
  pub opcode_of : g.opcode ≡ bit_and a 0xf
  pub in_block : g.size ≤ length g.rawdata
  pub is_whole : g.rawdata_idx ≡ g.size
  pub sized : g.rawdata_sz ≡ length g.rawdata
  pub room : 14 ≤ length g.rawdata

module _ (mem : Allocator) (cb : Callbacks) (s : ClientState) (f : Frame) (earlier : List Frame)
    (a k0 k1 k2 k3 : ℕ) (payload rest : List ℕ) (r : ℤ) where
  abbrev Taken : List ℕ → Type 0
  Taken block =
      (g : Frame) × Arrived a payload g
      × (receive_loop mem cb 0 (at_frame s (holding f [] block) earlier)
            (client_frame a k0 k1 k2 k3 payload ++ rest) r
          ≡ (frame_fn mem cb (table_class s.flags.receiving_fragment a)
                (at_frame (set_needs_more false s) g earlier)
              >>= after_frame mem cb rest))

  Taken-in :
      (z free : List ℕ) (x : ℕ)
      → length z ≡ length (length_field 128 (length payload)) + 4
      → CanReceive mem s f (z ++ x ∷ free) (length payload)
      → a < 256
      → Octets (k0 ∷ k1 ∷ k2 ∷ k3 ∷ [])
      → Octets payload
      → Taken (z ++ x ∷ free)
  Taken-in z free x len can byte key octets =
      let n = length payload in
      let lf = length_field 128 n in
      let pre : List ℕ = a ∷ lf in
      let got : List ℕ = pre ++ k0 ∷ k1 ∷ k2 ∷ k3 ∷ [] in
      let m = masked k0 k1 k2 k3 payload in
      let whole = loaded f got free a (second n) (length pre) n k0 k1 k2 k3 in
      let total : whole.size ≡ length pre + 4 + n =
        omega (arith, length_field-bounds n, can.small) in
      let lgot : length got ≡ length pre + 4 =
        omega (arith, length-append lf (k0 ∷ k1 ∷ k2 ∷ k3 ∷ [])) in
      let (free', sz, grown, lsz, enough, kept) =
        grow_lem mem whole got free refl
          (omega (arith, can.sized, len, lgot, length-append z (x ∷ free), length-append got free))
          (omega (arith, total)) (omega (arith, total, length_field-bounds n, can.small))
          can.grants in
      let keyed = record whole { rawdata = got ++ free'; rawdata_sz = sz } in
      let pending = key_pending mem f a k0 k1 k2 x free can.start pre (second n) n in
      let lm : length m ≡ n = length-masked k0 k1 k2 k3 payload in
      let fits : length m ≤ length free' =
        omega (arith, enough, lsz, total, lgot, lm, length-append got free') in
      let filled : length (got ++ (m ++ drop (length m) free')) ≡ length (got ++ free') = omega (
        arith,
        fits,
        length-append got free',
        length-append got (m ++ drop (length m) free'),
        length-append m (drop (length m) free'),
        length-drop (length m) free',
      ) in
      let last : feed mem pending k3 ≡ ok (keyed, true) =
        feed-key_last mem f pre free x a (second n) n k0 k1 k2 k3 ∙ grown in
      (
        record keyed { rawdata = got ++ (m ++ drop (length m) free'); rawdata_idx = whole.size },
        record {
          header = got;
          free = drop (length m) free';
          carries = record {
            block =
                ap (λ l. got ++ (l ++ drop (length m) free'))
                  (sym (demask-masked k0 k1 k2 k3 payload));
            offset = sym lgot;
            len = refl;
            octets = octets;
            key = key;
          };
          opcode_of = refl;
          in_block = omega (arith, total, lgot, lm, fits, filled, length-append got free');
          is_whole = refl;
          sized = omega (arith, lsz, filled);
          room = omega (
            arith,
            lsz,
            filled,
            kept,
            can.room,
            lgot,
            len,
            length-append z (x ∷ free),
            length-append got free,
          );
        },
        ap (λ bs. receive_loop mem cb 0 (at_frame s (holding f [] (z ++ x ∷ free)) earlier) bs r)
              (client_frame-split a k0 k1 k2 k3 payload rest)
            ∙ loop_header mem cb s (holding f [] (z ++ x ∷ free)) pending keyed earlier a
                (lf ++ k0 ∷ k1 ∷ k2 ∷ []) k3 (m ++ rest) r can.running
                (header_fed mem f a k0 k1 k2 x free can.start n z (omega (arith, can.small)) len)
                (λ e. cc) last
            ∙ copy-class mem cb (set_needs_more false (at_frame s pending earlier)) keyed earlier
                (lf ++ k0 ∷ k1 ∷ k2 ∷ k3 ∷ []) free' m rest a whole.size r byte
                (omega (arith, total, lgot, lm)) fits,
      )

  -- A masked frame among the received bytes, with a payload of up to 2^30 - 14 bytes in any of
  -- the three length forms, is taken in whole: the function for its class is called once, with a
  -- current frame that carries the payload and the opcode, and the loop goes on behind the frame
  -- unless that function returns -1. Earlier frames of the message stay as they were.
  pub frame_received :
      (block : List ℕ)
      → CanReceive mem s f block (length payload)
      → a < 256
      → Octets (k0 ∷ k1 ∷ k2 ∷ k3 ∷ [])
      → Octets payload
      → (g : Frame) × Arrived a payload g
        × (receive_loop mem cb 0
              (at_frame s (holding f [] block) earlier)
              (client_frame a k0 k1 k2 k3 payload ++ rest)
              r
            ≡ (frame_fn mem cb
                  (table_class s.flags.receiving_fragment a)
                  (at_frame (set_needs_more false s) g earlier)
                >>= after_frame mem cb rest))
  frame_received block can byte key octets =
      let (z, x, free, cut, len) =
        split_at (length (length_field 128 (length payload)) + 4) block
          (omega (arith, length_field-bounds (length payload), can.room)) in
      subst Taken (sym cut) (
        Taken-in z free x len (subst (λ b. CanReceive mem s f b (length payload)) cut can) byte key
          octets)

  -- Inside a fragmented message, a masked frame of up to 2^30 - 14 bytes of payload whose first byte
  -- is 240 or more makes the loop call a null pointer.
  pub null_entry_called :
      (block : List ℕ)
      → CanReceive mem s f block (length payload)
      → s.flags.receiving_fragment ≡ true
      → 240 ≤ a
      → a < 256
      → Octets (k0 ∷ k1 ∷ k2 ∷ k3 ∷ [])
      → Octets payload
      → receive_loop mem cb 0
          (at_frame s (holding f [] block) earlier)
          (client_frame a k0 k1 k2 k3 payload ++ rest)
          r
        ≡ fault
  unfolding frame_fn
  null_entry_called block can inside high byte key octets =
      let (g, arrived, taken) = frame_received block can byte key octets in
      let class : table_class s.flags.receiving_fragment a ≡ null =
        rw (inside, le→leb 240 a high) refl in
      taken
      ∙ ap
          (λ fn.
            frame_fn mem cb fn (at_frame (set_needs_more false s) g earlier)
            >>= after_frame mem cb rest)
          class
