-- ===== src/DefaultCallbacks/Carried.antt =====
-- A frame that carries a masked payload, and what demasking it in place leaves.
use libwebsock.Prelude.{
  ℕ, ◌≡◌, List, ◌++◌, arith, length, take-length, drop-length, length-append, ok,
}
use libwebsock.Memory.{read}
use libwebsock.Memory.Blocks.{write_seam, read_seam}
use libwebsock.Types.{Frame}
use libwebsock.Dispatch.{demask, frame_payload}
use libwebsock.Dispatch.Masking.{Octets, demask_twice, length-demask}
use libwebsock.DefaultCallbacks.{demask_in_place}

-- The block holds a header, the masked payload and what is free behind it.
pub record Carries (f : Frame) (header payload free : List ℕ) : Type 0 where
  pub block : f.rawdata ≡ header ++ (demask f.mask 0 payload ++ free)
  pub offset : f.payload_offset ≡ length header
  pub len : f.payload_len ≡ length payload
  pub octets : Octets payload
  pub key : Octets f.mask

module _ (f : Frame) (header payload free : List ℕ) (carries : Carries f header payload free) where
  read-carried : read f.rawdata f.payload_offset f.payload_len ≡ ok (demask f.mask 0 payload)
  read-carried = rw (
    carries.block,
    read_seam f.payload_offset f.payload_len header (demask f.mask 0 payload ++ free) carries.offset
        (omega (
          arith,
          carries.len,
          length-demask f.mask 0 payload,
          length-append (demask f.mask 0 payload) free,
        )),
    shown,
    take-length (demask f.mask 0 payload) free,
  )
    where
      shown : f.payload_len ≡ length (demask f.mask 0 payload)
      shown = omega (arith, carries.len, length-demask f.mask 0 payload)

  pub frame_payload-carried : frame_payload f ≡ ok payload
  unfolding frame_payload
  frame_payload-carried =
      rw (read-carried, demask_twice f.mask 0 payload carries.key carries.octets)

  -- The frame with its payload demasked.
  abbrev pub demasked : Frame
  demasked = record f { rawdata = header ++ (payload ++ free) }

  pub demask_in_place-carried : demask_in_place f ≡ ok demasked
  unfolding demask_in_place
  demask_in_place-carried = rw (
    read-carried,
    demask_twice f.mask 0 payload carries.key carries.octets,
    carries.block,
    write_seam f.payload_offset header (demask f.mask 0 payload ++ free) payload carries.offset (
        omega
          (arith, length-demask f.mask 0 payload, length-append (demask f.mask 0 payload) free)),
    ← length-demask f.mask 0 payload,
    drop-length (demask f.mask 0 payload) free,
  )
