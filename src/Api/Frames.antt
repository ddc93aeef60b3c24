-- ===== src/Api/Frames.antt =====
-- Close frames, and text sent in fragments.
use libwebsock.Prelude.{
  ℕ, suc, ◌+◌, ◌/◌, ◌%◌, ◌^◌, ◌≤◌, ◌<◌, ◌≡◌, refl, List, [], ◌∷◌, ◌++◌, some, arith, All,
  append_assoc, length, take, drop, replicate, length-append, length-drop, take-length, length-take,
  ok, signed32, ◌>>=◌,
}
use libwebsock.ByteOrder.Involution.{be16toh-htobe16}
use libwebsock.Memory.{Allocator}
use libwebsock.Memory.Blocks.{write_seam, c_string_lem, take_all}
use libwebsock.Types.{ClientState}
use libwebsock.Fragment.{make_fragment}
use libwebsock.Fragment.Appends.{CanSend, appended, make_fragment_frame, header_size}
use libwebsock.Wire.{server_frame}
use libwebsock.Api.{make_close_frame_with_reason, with_sent_close}

-- `buf` once the code and the reason are in it.
abbrev close_buffer : ℕ → List ℕ → List ℕ
close_buffer code text =
    (code / 256)
    ∷ (code % 256)
    ∷ (take 123 text ++ 0 ∷ drop (length (take 123 text ++ 0 ∷ [])) (replicate 126 0))

pub close_frame-fragment :
    (mem : Allocator) (s : ClientState) (code : ℕ) (text rest : List ℕ)
    → code < 2 ^ 16
    → All (λ b. 0 < b) text
    → make_close_frame_with_reason mem s code (some (text ++ 0 ∷ rest)) ≡ (
        make_fragment mem s (close_buffer code text) ((2 + length text) % 2 ^ 32) 0x88
        >>= (λ sent. ok (with_sent_close sent.0, sent.1)))
unfolding make_close_frame_with_reason
close_frame-fragment mem s code text rest small all = rw (
  c_string_lem text rest all,
  (be16toh-htobe16 code small).1,
  write_seam 0 [] (replicate 128 0) ((code / 256) ∷ (code % 256) ∷ []) refl (omega arith),
  write_seam 2 ((code / 256) ∷ (code % 256) ∷ []) (replicate 126 0) (take 123 text ++ 0 ∷ []) refl
      (omega (arith, length-append {0} (take 123 text) (0 ∷ []), length-take 123 text)),
  append_assoc (take 123 text) (0 ∷ []),
)

close_buffer-take :
    (code : ℕ) (text : List ℕ)
    → length text ≤ 123
    → take (2 + length text) (close_buffer code text) ≡ (code / 256) ∷ (code % 256) ∷ text
close_buffer-take code text h =
    let two : 2 + length text ≡ suc (suc (length text)) = omega arith in
    rw (
      two,
      take_all 123 text h,
      take-length text (0 ∷ drop (length (text ++ 0 ∷ [])) (replicate 126 0)),
    )

length-close_buffer : (code : ℕ) (text : List ℕ) → length (close_buffer code text) ≡ 128
length-close_buffer code text =
    let zeros : List ℕ = replicate 126 0 in
    let used = length (take 123 text ++ 0 ∷ []) in
    omega (
      arith,
      length-append {0} (take 123 text) (0 ∷ drop used zeros),
      length-append {0} (take 123 text) (0 ∷ []),
      length-drop used zeros,
      length-take {0} 123 text,
    )

-- On a connected client that has not both sent and received a close frame, with memory and with
-- outgoing data that fill their block and have room for the frame below 2^32, a close frame with a
-- 16-bit code and a reason of at most 123 bytes is one final close frame (first byte 0x88) whose payload is the code, high byte first, and the whole reason; the state
-- remembers that a close frame was sent, and nothing else changes.
pub close_frame-sent :
    (mem : Allocator) (s : ClientState) (code : ℕ) (text rest : List ℕ)
    → code < 2 ^ 16
    → All (λ b. 0 < b) text
    → length text ≤ 123
    → CanSend mem s (2 + length text)
    → make_close_frame_with_reason mem s code (some (text ++ 0 ∷ rest))
      ≡ ok (
        with_sent_close (appended s (server_frame 0x88 ((code / 256) ∷ (code % 256) ∷ text))),
        signed32 (4 + length text),
      )
close_frame-sent mem s code text rest small all short can =
    let e : (2 + length text) % 2 ^ 32 ≡ 2 + length text = omega arith in
    let n : header_size (2 + length text) + (2 + length text) ≡ 4 + length text = ground arith in
    rw (
      close_frame-fragment mem s code text rest small all,
      e,
      make_fragment_frame mem s (close_buffer code text) (2 + length text) 0x88 can
          (omega (arith, length-close_buffer code text)),
      close_buffer-take code text short,
      n,
    )
