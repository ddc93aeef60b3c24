-- ===== src/Safety/Sending.antt =====
-- `libwebsock_make_fragment` (src/websock.c) stays inside its objects where the source has `len`
-- bytes.
use libwebsock.Prelude.{
  ℕ, ◌+◌, ◌-◌, ◌%◌, ◌^◌, ◌≤◌, ◌<◌, ◌≡◌, refl, not, ◌&&◌, List, [], ◌∷◌, ◌++◌, arith, length,
  length-append, length-take, length-drop, length-replicate, take, drop, replicate, Option, none,
  some, ok, ◌>>=◌, Safely, >>=-Safely, leb, le→leb, Bool-cases, inl, inr, ℤ, bit_and, bit_or,
}
use libwebsock.Memory.{Allocator, read, write, lws_calloc, lws_realloc, c_string}
use libwebsock.ByteOrder.{lws_htobe16, store16}
use libwebsock.Types.{ClientState, WsString, CloseInfo, ws_fragment_fin, ws_opcode_close}
use libwebsock.Fragment.{Room, make_fragment, append_frame, make_room, extended_length, old_size}
use libwebsock.Api.{make_close_frame_with_reason}
use libwebsock.Safety.{IsBounded, Holding}
use libwebsock.Safety.Text.{NulWithin, c_string-Safely}

-- `data_sz` is the size of the block.
abbrev pub IsSoundOut : Option WsString → Type 0
IsSoundOut none = Unit
IsSoundOut (some out) = (out.data_sz ≡ length out.bytes) × (out.data_sz < 2 ^ 31)

-- The reason in the array of 124 bytes ends with a NUL.
abbrev pub IsSoundInfo : Option CloseInfo → Type 0
IsSoundInfo none = Unit
IsSoundInfo (some info) = NulWithin 123 info.reason

-- What the default callbacks keep.
abbrev pub IsSound : Holding
IsSound out info = IsSoundOut out × IsSoundInfo info

-- The outgoing data is sound, and the frames and the close information are as before.
abbrev pub Sends : ClientState → ClientState × ℤ → Type 0
Sends s called =
    IsSoundOut called.0.out_data
    × (called.0.current_frame ≡ s.current_frame)
    × (called.0.close_info ≡ s.close_info)

pub write-sized :
    (block : List ℕ) (at : ℕ) (bytes : List ℕ)
    → at + length bytes ≤ length block
    → Safely (λ out. length out ≡ length block) (write block at bytes)
unfolding write
write-sized block at bytes room = rw (le→leb (at + length bytes) (length block) room) (
    omega (
      arith,
      length-append (take at block) (bytes ++ drop (at + length bytes) block),
      length-append bytes (drop (at + length bytes) block),
      length-take at block,
      length-drop (at + length bytes) block,
    ))

module _ (mem : Allocator) (bounded : IsBounded mem) where
  -- Room for `n` bytes behind those that there are.
  abbrev HasRoom : ℕ → ℕ → Room → Type 0
  HasRoom old n room = (length room.block ≡ old + n) × (room.start ≡ old) × (old + n < 2 ^ 31)

  make_room-Safely :
      (s : ClientState) (n : ℕ)
      → IsSoundOut s.out_data
      → n < 2 ^ 31
      → Safely (HasRoom (old_size s.out_data) n) (make_room mem s n)
  unfolding make_room lws_calloc lws_realloc
  make_room-Safely s n sound small = at s.out_data sound
    where
      at :
          (o : Option WsString)
          → IsSoundOut o
          → Safely (HasRoom (old_size o) n) (elim o [
            | none ↦ lws_calloc mem n >>= (λ block. ok (record { block = block; start = 0 }))
            | some out ↦
                lws_realloc mem out.bytes ((out.data_sz + n) % 2 ^ 32)
                >>= (λ block. ok (record { block = block; start = out.data_sz }))
          ])
      at none sound = elim (Bool-cases (mem.fits n)) [
        | inr refused ↦ rw refused tt
        | inl fits ↦ rw fits (omega (arith, length-replicate {A = ℕ} n 0), refl, omega arith)
      ]
      at (some out) (sized, below) =
          let total = (out.data_sz + n) % 2 ^ 32 in
          elim (Bool-cases (mem.fits total)) [
            | inr refused ↦ rw refused tt
            | inl fits ↦
                let (positive, granted) = bounded.granted total fits in
                rw fits (
                  omega (
                    arith,
                    length-append (take total out.bytes) (mem.garbage (total - length out.bytes)),
                    length-take total out.bytes,
                    mem.length-garbage (total - length out.bytes),
                  ),
                  refl,
                  omega arith,
                )
          ]

  read-sized :
      (block : List ℕ) (n : ℕ)
      → n ≤ length block
      → Safely (λ bytes. length bytes ≡ n) (read block 0 n)
  unfolding read
  read-sized block n room =
      rw (le→leb (0 + n) (length block) (omega arith)) (omega (arith, length-take n block))

  append_frame-Safely :
      (s : ClientState) (source : List ℕ) (len fin_opcode small payload_offset : ℕ)
      → IsSoundOut s.out_data
      → payload_offset ≡ 2 + length (extended_length small len)
      → len ≤ length source
      → payload_offset + len < 2 ^ 31
      → Safely (Sends s) (append_frame mem s source len fin_opcode small payload_offset)
  unfolding append_frame
  append_frame-Safely s source len fin_opcode small payload_offset sound off have fit =
      let n = (payload_offset + len) % 2 ^ 32 in
      let e : n ≡ payload_offset + len = omega arith in
      >>=-Safely (HasRoom (old_size s.out_data) n) (Sends s) (make_room mem s n) _
        (make_room-Safely s n sound (omega arith))
        (λ room (sized, start, below).
          >>=-Safely (λ payload. length payload ≡ len) (Sends s) (read source 0 len) _
            (read-sized source len have)
            (λ payload body.
              >>=-Safely (λ b1. length b1 ≡ length room.block) (Sends s)
                (write room.block room.start (fin_opcode ∷ small ∷ [])) _
                (write-sized room.block room.start (fin_opcode ∷ small ∷ []) (omega arith))
                (λ b1 size1.
                  >>=-Safely (λ b2. length b2 ≡ length b1) (Sends s)
                    (write b1 (room.start + 2) (extended_length small len)) _
                    (write-sized b1 (room.start + 2) (extended_length small len) (omega arith))
                    (λ b2 size2.
                      >>=-Safely (λ b3. length b3 ≡ length b2) (Sends s)
                        (write b2 (room.start + payload_offset) payload) _
                        (write-sized b2 (room.start + payload_offset) payload (omega arith))
                        (λ b3 size3. ((omega arith, omega arith), refl, refl))))))

  pub make_fragment-Safely :
      (s : ClientState) (source : List ℕ) (len flags : ℕ)
      → IsSoundOut s.out_data
      → len ≤ length source
      → 10 + len < 2 ^ 31
      → Safely (Sends s) (make_fragment mem s source len flags)
  unfolding make_fragment extended_length
  make_fragment-Safely s source len flags sound have fit =
      elim (Bool-cases (s.flags.sent_close_frame && s.flags.received_close_frame)) [
        | inl closed ↦ rw closed (sound, refl, refl)
        | inr opened ↦ rw opened (elim (Bool-cases (not s.flags.connected)) [
          | inl apart ↦ rw apart (sound, refl, refl)
          | inr connected ↦ rw connected (elim (Bool-cases (leb len 125)) [
            | inl short ↦ rw short (
                append_frame-Safely s source len (bit_and flags 0xff) len 2 sound
                  (ground (arith, short)) have (omega arith))
            | inr longer ↦ rw longer (elim (Bool-cases (leb len 0xffff)) [
              | inl medium ↦ rw medium (
                  append_frame-Safely s source len (bit_and flags 0xff) 126 4 sound refl have
                    (omega arith))
              | inr long ↦ rw long (elim (Bool-cases (leb len 0xfffffff0)) [
                | inl largest ↦ rw largest (
                    append_frame-Safely s source len (bit_and flags 0xff) 127 10 sound refl have
                      (omega arith))
                | inr beyond ↦ rw beyond (sound, refl, refl)
              ])
            ])
          ])
        ])
      ]

  -- The buffer of 128 bytes holds any reason that ends inside its array.
  pub make_close_frame_with_reason-none :
      (s : ClientState) (code : ℕ)
      → IsSoundOut s.out_data
      → Safely (Sends s) (make_close_frame_with_reason mem s code none)
  unfolding make_close_frame_with_reason
  make_close_frame_with_reason-none s code sound =
      >>=-Safely (λ buf. length buf ≡ 128) (Sends s)
        (write (replicate 128 0) 0 (store16 (lws_htobe16 code))) _
        (write-sized (replicate 128 0) 0 (store16 (lws_htobe16 code)) (omega arith))
        (λ buf size.
          >>=-Safely (Sends s) (Sends s)
            (make_fragment mem s buf 2 (bit_or ws_fragment_fin ws_opcode_close)) _
            (make_fragment-Safely s buf 2 _ sound (omega arith) (omega arith)) (λ sent done. done))

  pub make_close_frame_with_reason-some :
      (s : ClientState) (code : ℕ) (reason : List ℕ)
      → IsSoundOut s.out_data
      → NulWithin 123 reason
      → Safely (Sends s) (make_close_frame_with_reason mem s code (some reason))
  unfolding make_close_frame_with_reason
  make_close_frame_with_reason-some s code reason sound nul =
      >>=-Safely (λ text. length text ≤ 123) (Sends s) (c_string reason) _
        (c_string-Safely 123 reason nul)
        (λ text short.
          >>=-Safely (λ buf. length buf ≡ 128) (Sends s)
            (write (replicate 128 0) 0 (store16 (lws_htobe16 code))) _
            (write-sized (replicate 128 0) 0 (store16 (lws_htobe16 code)) (omega arith))
            (λ b1 size1.
              >>=-Safely (λ buf. length buf ≡ length b1) (Sends s)
                (write b1 2 (take 123 text ++ 0 ∷ [])) _
                (write-sized b1 2 (take 123 text ++ 0 ∷ [])
                  (omega (arith, length-append (take 123 text) (0 ∷ []), length-take 123 text)))
                (λ buf size.
                  >>=-Safely (Sends s) (Sends s)
                    (make_fragment mem s buf ((2 + length text) % 2 ^ 32)
                      (bit_or ws_fragment_fin ws_opcode_close))
                    _
                    (make_fragment-Safely s buf ((2 + length text) % 2 ^ 32) _ sound (omega arith)
                      (omega arith))
                    (λ sent done. done))))
