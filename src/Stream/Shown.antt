-- ===== src/Stream/Shown.antt =====
-- How the state of a client stands for what a peer's frames have come to.
use libwebsock.Prelude.{
  ℕ, ◌≤◌, ◌<◌, ◌≡◌, ◌≢◌, ◌⊎◌, inl, inr, refl, ◌∙◌, ap, sym, Bool, false, List, [], ◌∷◌, ◌++◌, arith,
  length, replicate, none, some, ◌>>=◌, ℤ,
}
use libwebsock.Memory.{Allocator}
use libwebsock.Types.{ClientState, Callbacks, Frame, sw_start}
use libwebsock.Header.Feed.{holding}
use libwebsock.Wire.{client_frame}
use libwebsock.Dispatch.{message_opcode}
use libwebsock.Dispatch.Messages.{Holds, joined}
use libwebsock.DefaultCallbacks.Pings.{at_frame}
use libwebsock.Receive.{set_needs_more, first_frame, frame_fn, receive_loop, after_loop}
use libwebsock.Receive.Table.{table_class}
use libwebsock.Receive.Frames.{after_frame}
use libwebsock.Receive.Arrival.{Arrived, frame_received}
use libwebsock.Receive.Messages.{IsIdle, loop_first}
use libwebsock.Stream.{Key, Unfinished, is_inside, FrameFits}
use libwebsock.Stream.Pongs.{shown}

-- A frame that waits for its first byte.
pub record IsFresh (f : Frame) : Type 0 where
  pub start : f.state ≡ sw_start
  pub at_front : f.rawdata_idx ≡ 0
  pub sized : f.rawdata_sz ≡ length f.rawdata
  pub room : 14 ≤ length f.rawdata

-- The frames of an unfinished message carry its opcode and, joined, its bytes.
abbrev pub Stored : Unfinished → List Frame → Type 0
Stored none earlier = earlier ≡ []
Stored (some (opcode, bytes)) earlier =
    (ps : List (List ℕ)) × Holds earlier ps
    × (joined ps ≡ bytes)
    × (message_opcode earlier ≡ opcode)
    × (earlier ≢ [])

-- A client between two frames: it has no frame, or one that waits behind the stored ones.
abbrev pub Shows : ClientState → Unfinished → ClientState → Type 0
Shows s u c =
    ((u ≡ none) × (c ≡ s))
    ⊎ ((f : Frame) × (earlier : List Frame) × IsFresh f
        × Stored u earlier
        × (c ≡ shown s (is_inside u) (f ∷ earlier)))

-- A client outside of messages, with no frame and nothing noted about the last bytes.
pub record IsSettled (mem : Allocator) (s : ClientState) : Type 0 where
  pub idle : IsIdle mem s
  pub noted : s.flags.needs_more_data ≡ false

module _ (mem : Allocator) (cb : Callbacks) where
  -- The same, also at the end of a call of `handle_recv`.
  abbrev pub Stands : ClientState → Unfinished → ClientState → Type 0
  Stands s u c = (c' : ClientState) × Shows s u c' × ((c ≡ c') ⊎ (c ≡ after_loop mem cb c'))

  module _ (s : ClientState) (settled : IsSettled mem s) where
    pub kept_fragment : shown s false [] ≡ s
    kept_fragment =
        ap (λ b. record s { flags = record s.flags { receiving_fragment = b }; current_frame = [] })
          (sym settled.idle.outside)
        ∙ ap (λ chain. record s { current_frame = chain }) (sym settled.idle.no_frame)

    kept_note :
        (inside : Bool) (chain : List Frame)
        → set_needs_more false (shown s inside chain) ≡ shown s inside chain
    kept_note inside chain =
        ap
          (λ b. record (shown s inside chain) {
            flags = record (shown s inside chain).flags { needs_more_data = b };
          })
          (sym settled.noted)

    -- Where there is no frame, the first byte makes one.
    loop_begins :
        (u : Unfinished) (c : ClientState) (b : ℕ) (bs : List ℕ) (r : ℤ)
        → Shows s u c
        → (f : Frame) × (earlier : List Frame) × IsFresh f
          × Stored u earlier
          × (receive_loop mem cb 0 c (b ∷ bs) r
              ≡ receive_loop mem cb 0
                  (at_frame (shown s (is_inside u) []) (holding f [] f.rawdata) earlier)
                  (b ∷ bs)
                  r)
    loop_begins (some m) c b bs r (inl (outside, e)) = absurd (ground arith)
    loop_begins none c b bs r (inl (outside, e)) = (
      first_frame,
      [],
      record { start = refl; at_front = refl; sized = refl; room = omega arith },
      refl,
      ap (λ c. receive_loop mem cb 0 c (b ∷ bs) r) e
          ∙ loop_first mem cb s settled.idle b bs r
          ∙ ap
              (λ s.
                receive_loop mem cb 0 (at_frame s (holding first_frame [] (replicate 1024 0)) [])
                  (b ∷ bs) r)
              (sym kept_fragment),
    )
    loop_begins u c b bs r (inr (f, earlier, fresh, stored, e)) = (
      f,
      earlier,
      fresh,
      stored,
      ap (λ c. receive_loop mem cb 0 c (b ∷ bs) r)
          (e
            ∙ ap (λ n. shown s (is_inside u) (record f { rawdata_idx = n } ∷ earlier))
                fresh.at_front),
    )

    -- The next frame reaches the function for its class.
    pub frame_taken :
        (u : Unfinished) (c : ClientState) (a : ℕ) (key : Key) (payload rest : List ℕ) (r : ℤ)
        → Shows s u c
        → a < 256
        → FrameFits key payload
        → (g : Frame) × (earlier : List Frame) × Arrived a payload g
          × Stored u earlier
          × (receive_loop mem cb 0 c (client_frame a key.k0 key.k1 key.k2 key.k3 payload ++ rest) r
              ≡ (frame_fn mem cb (table_class (is_inside u) a) (shown s (is_inside u) (g ∷ earlier))
                  >>= after_frame mem cb rest))
    unfolding client_frame
    frame_taken u c a key payload rest r shows byte fits =
        let (f, earlier, fresh, stored, begins) = loop_begins u c a _ r shows in
        let (g, arrived, taken) =
          frame_received mem cb (shown s (is_inside u) []) f earlier a key.k0 key.k1 key.k2 key.k3
            payload rest r f.rawdata
            (record {
              running = settled.idle.running;
              start = fresh.start;
              sized = fresh.sized;
              room = fresh.room;
              small = fits.2;
              grants = settled.idle.grants;
            })
            byte fits.0 fits.1 in
        (
          g,
          earlier,
          arrived,
          stored,
          begins
              ∙ taken
              ∙ ap
                  (λ c. frame_fn mem cb (table_class (is_inside u) a) c >>= after_frame mem cb rest)
                  (kept_note (is_inside u) (g ∷ earlier)),
        )
