-- ===== src/Stream/Kept.antt =====
-- What the answer to a ping leaves: the client in order, and a frame for the next header.
use libwebsock.Prelude.{
  ℕ, ◌+◌, ◌^◌, ◌≡◌, refl, ◌∙◌, ap, Bool, true, false, List, [], ◌∷◌, ◌++◌, arith, length,
  length-append, Outcome, ℤ, bit_and, Yields, >>=-Yields, leb, not, ◌&&◌, ◌%◌, if◌then◌else◌,
}
use libwebsock.Memory.{Allocator, read, write}
use libwebsock.Types.{ClientState, Frame}
use libwebsock.Fragment.{make_fragment, append_frame, make_room, extended_length}
use libwebsock.Dispatch.{demask}
use libwebsock.Dispatch.Masking.{length-demask}
use libwebsock.Receive.Arrival.{Arrived}
use libwebsock.Stream.Pongs.{rewound}
use libwebsock.Stream.Shown.{IsFresh, IsSettled}

Yields-if {ℓ} :
    {A : Type ℓ} (P : A → Type 0) (t : Bool) (a b : Outcome A)
    → Yields P a
    → Yields P b
    → Yields P (if t then a else b)
Yields-if P true a b x y = x
Yields-if P false a b x y = y

module _ (mem : Allocator) (s : ClientState) (settled : IsSettled mem s) where
  abbrev Leaves : ClientState × ℤ → Type 0
  Leaves called = IsSettled mem called.0

  append_frame-IsSettled :
      (source : List ℕ) (len first small offset : ℕ)
      → Yields Leaves (append_frame mem s source len first small offset)
  unfolding append_frame
  append_frame-IsSettled source len first small offset =
      >>=-Yields Leaves (make_room mem s ((offset + len) % 2 ^ 32)) _ (λ room.
        >>=-Yields Leaves (read source 0 len) _ (λ payload.
          >>=-Yields Leaves (write room.block room.start (first ∷ small ∷ [])) _ (λ b1.
            >>=-Yields Leaves (write b1 (room.start + 2) (extended_length small len)) _ (λ b2.
              >>=-Yields Leaves (write b2 (room.start + offset) payload) _ (λ b3. record {
                idle = record {
                  running = settled.idle.running;
                  open_side = settled.idle.open_side;
                  outside = settled.idle.outside;
                  no_frame = settled.idle.no_frame;
                  grants = settled.idle.grants;
                };
                noted = settled.noted;
              })))))

  pub make_fragment-IsSettled :
      (source : List ℕ) (len first : ℕ) → Yields Leaves (make_fragment mem s source len first)
  unfolding make_fragment
  make_fragment-IsSettled source len first =
      let append = append_frame-IsSettled source len (bit_and first 0xff) in
      Yields-if Leaves (s.flags.sent_close_frame && s.flags.received_close_frame) _ _ settled (
        Yields-if Leaves (not s.flags.connected) _ _ settled (
          Yields-if Leaves (leb len 125) _ _ (append len 2) (
            Yields-if Leaves (leb len 0xffff) _ _ (append 126 4)
              (Yields-if Leaves (leb len 0xfffffff0) _ _ (append 127 10) settled))))

pub rewound-IsFresh :
    (g : Frame) (a : ℕ) (payload : List ℕ) (arrived : Arrived a payload g)
    → IsFresh (rewound g arrived.header payload arrived.free arrived.carries)
rewound-IsFresh g a payload arrived =
    let same : length g.rawdata ≡ length (arrived.header ++ (payload ++ arrived.free)) =
      ap length arrived.carries.block
      ∙ omega (
        arith,
        length-append arrived.header (demask g.mask 0 payload ++ arrived.free),
        length-append (demask g.mask 0 payload) arrived.free,
        length-demask g.mask 0 payload,
        length-append arrived.header (payload ++ arrived.free),
        length-append payload arrived.free,
      ) in
    record {
      start = refl;
      at_front = refl;
      sized = arrived.sized ∙ same;
      room = omega (arith, arrived.room, same);
    }
