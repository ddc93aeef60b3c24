-- ===== src/Safety/Payload.antt =====
-- The payload of a control frame that is done can be demasked and read.
use libwebsock.Prelude.{
  ℕ, ◌+◌, ◌-◌, ◌≤◌, ◌<◌, ◌≡◌, refl, List, [], ◌∷◌, ◌++◌, arith, length, replicate, none, Safely,
  >>=-Safely, ltb, if◌then◌else◌, Bool-cases, inl, inr,
}
use libwebsock.Memory.{byte_at, read, write}
use libwebsock.Memory.Blocks.{write_seam}
use libwebsock.Types.{Frame}
use libwebsock.Dispatch.{demask}
use libwebsock.Dispatch.Masking.{Octets, demask-Octets, length-demask}
use libwebsock.Frames.{populate_close_info_from_frame}
use libwebsock.DefaultCallbacks.{demask_in_place}
use libwebsock.DefaultCallbacks.Closing.{zero_tail}
use libwebsock.Safety.{IsBlock, IsDone}
use libwebsock.Safety.Blocks.{read-Safely, write-Safely, byte_at-Safely, Written}
use libwebsock.Safety.Text.{NulWithin, first_nul}
use libwebsock.Safety.Sending.{IsSoundInfo}

-- A frame whose payload can be read.
pub record IsControl (f : Frame) : Type 0 where
  pub block : IsBlock f
  pub done : IsDone f
  pub short : f.payload_len ≤ 125

pub demask_in_place-Safely : (f : Frame) → IsControl f → Safely IsControl (demask_in_place f)
unfolding demask_in_place
demask_in_place-Safely f is =
    >>=-Safely (λ bytes. (length bytes ≡ f.payload_len) × Octets bytes) IsControl
      (read f.rawdata f.payload_offset f.payload_len) _
      (read-Safely f.rawdata f.payload_offset f.payload_len
        (is.done.inside (omega (arith, is.short))) is.block.bytes)
      (λ payload held.
        >>=-Safely (Written f.rawdata f.payload_offset (demask f.mask 0 payload)) IsControl
          (write f.rawdata f.payload_offset (demask f.mask 0 payload)) _
          (write-Safely f.rawdata f.payload_offset (demask f.mask 0 payload)
            (omega (
              arith,
              length-demask f.mask 0 payload,
              held.0,
              is.done.inside (omega (arith, is.short)),
            ))
            is.block.bytes (demask-Octets f.mask 0 payload is.done.key held.1))
          (λ out w. record {
            block = record {
              sized = omega (arith, is.block.sized, w.same_size);
              room = omega (arith, is.block.room, w.same_size);
              bytes = w.octets;
            };
            done = record {
              bytes = w.octets;
              key = is.done.key;
              below = is.done.below;
              inside = λ small. omega (arith, is.done.inside small, w.same_size);
            };
            short = is.short;
          }))

pub populate_close_info-Safely :
    (f : Frame)
    → IsControl f
    → 2 ≤ f.payload_len
    → Safely IsSoundInfo (populate_close_info_from_frame none f)
unfolding populate_close_info_from_frame
populate_close_info-Safely f is long =
    let room = is.done.inside (omega (arith, is.short)) in
    let n : ℕ = if ltb 124 (f.payload_len - 2) then 124 else f.payload_len - 2 in
    let e : n ≡ f.payload_len - 2 = ground (arith, is.short) in
    elim (Bool-cases (ltb f.payload_len 2)) [
      | inl less ↦ rw less tt
      | inr there ↦ rw there (
          >>=-Safely (λ b. b < 256) IsSoundInfo (byte_at f.rawdata f.payload_offset) _
            (byte_at-Safely f.rawdata f.payload_offset (omega arith) is.block.bytes)
            (λ a byte_a.
              >>=-Safely (λ b. b < 256) IsSoundInfo (byte_at f.rawdata (f.payload_offset + 1)) _
                (byte_at-Safely f.rawdata (f.payload_offset + 1) (omega arith) is.block.bytes)
                (λ b byte_b.
                  >>=-Safely (λ bytes. (length bytes ≡ n) × Octets bytes) IsSoundInfo
                    (read f.rawdata (f.payload_offset + 2) n) _
                    (read-Safely f.rawdata (f.payload_offset + 2) n (omega arith) is.block.bytes)
                    (λ copied held.
                      rw
                        (
                          write_seam 0 [] (replicate 124 0) copied refl
                              (omega (arith, held.0, is.short)),
                          zero_tail (length copied) (omega (arith, held.0, is.short)),
                        )
                        (shorter copied
                          (first_nul copied (replicate (123 - length copied) 0) held.1)
                          (omega (arith, held.0, is.short)))))))
    ]
  where
    shorter :
        (bs : List ℕ)
        → NulWithin (length bs) (bs ++ 0 ∷ replicate (123 - length bs) 0)
        → length bs ≤ 123
        → NulWithin 123 (bs ++ 0 ∷ replicate (123 - length bs) 0)
    shorter bs nul few = record {
      front = nul.front;
      back = nul.back;
      cut = nul.cut;
      bytes = nul.bytes;
      short = omega (arith, nul.short);
    }
