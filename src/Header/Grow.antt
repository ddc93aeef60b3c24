-- ===== src/Header/Grow.antt =====
-- The growth of `rawdata`: `round_up` gives room for the whole frame.
use libwebsock.Prelude.{
  ℕ, ◌+◌, ◌-◌, ◌/◌, ◌%◌, ◌^◌, ◌≤◌, ◌<◌, ◌≡◌, arith, ltb, le-bit_or, bit_or-lt, List, ◌++◌,
  Bool-cases, inl, inr, length, length-append, ltb→lt, append_assoc, true, false, ok,
}
use libwebsock.Memory.{Allocator, lws_realloc}
use libwebsock.Memory.Blocks.{take_all}
use libwebsock.Types.{Frame}
use libwebsock.Header.{smear, round_up, grow}

le-smear : (k x : ℕ) → x ≤ smear k x
unfolding smear
le-smear k x = le-bit_or x _

module _ (k : ℕ) (pos : 0 < k) where
  smear-lt : (x : ℕ) → x < 2 ^ 30 → x / 2 ^ k ≤ x → smear k x < 2 ^ 30
  unfolding smear
  smear-lt x h le = ground (arith, bit_or-lt 30 x (x / 2 ^ k))

-- The five steps without the wrap-around of the `int`.
abbrev smeared : ℕ → ℕ
smeared x = smear 16 (smear 8 (smear 4 (smear 2 (smear 1 x))))

smeared-bounds : (x : ℕ) → x < 2 ^ 30 → (x ≤ smeared x) × (smeared x < 2 ^ 30)
smeared-bounds x h = (
  omega (
    arith,
    le-smear 1 x,
    le-smear 2 (smear 1 x),
    le-smear 4 (smear 2 (smear 1 x)),
    le-smear 8 (smear 4 (smear 2 (smear 1 x))),
    le-smear 16 (smear 8 (smear 4 (smear 2 (smear 1 x)))),
  ),
  smear-lt 16 (omega arith) _
      (smear-lt 8 (omega arith) _
        (smear-lt 4 (omega arith) _
          (smear-lt 2 (omega arith) _ (smear-lt 1 (omega arith) x h (omega arith)) (omega arith))
          (omega arith))
        (omega arith))
      (omega arith),
)

-- For a frame of 1 to 2^30 bytes the new size has room for the frame and is at most 2^30, so no
-- step overflows the `int`.
pub round_up_bounds :
    (size : ℕ) → 0 < size → size ≤ 2 ^ 30 → (size ≤ round_up size) × (round_up size ≤ 2 ^ 30)
unfolding round_up
round_up_bounds size h k =
    let e : (size + 2 ^ 32 - 1) % 2 ^ 32 ≡ size - 1 = omega arith in
    rw e (omega (arith, smeared-bounds (size - 1) (omega arith)))

-- For a frame of 1 to 2^30 bytes and an allocator that grants up to 2^30 bytes, `grow` leaves a
-- block with the same bytes in front and room for the frame, no smaller than before, and
-- `rawdata_sz` is the block's size.
pub grow_lem :
    (mem : Allocator) (g : Frame) (got free : List ℕ)
    → g.rawdata ≡ got ++ free
    → g.rawdata_sz ≡ length (got ++ free)
    → 0 < g.size
    → g.size ≤ 2 ^ 30
    → ((m : ℕ) → m ≤ 2 ^ 30 → mem.fits m ≡ true)
    → (free' : List ℕ) × (sz : ℕ) × (grow mem g
        ≡ ok (record g { rawdata = got ++ free'; rawdata_sz = sz }, true))
      × (sz ≡ length (got ++ free'))
      × (g.size ≤ sz)
      × (length (got ++ free) ≤ sz)
unfolding grow lws_realloc
grow_lem mem g got free block sized pos small grants = elim (Bool-cases (ltb g.rawdata_sz g.size)) [
  | inl more ↦ (
    free ++ mem.garbage (m - length (got ++ free)),
    m,
    grown more,
    omega (
      arith,
      bounds,
      ltb→lt g.rawdata_sz g.size more,
      length-append got (free ++ mem.garbage (m - length (got ++ free))),
      length-append free (mem.garbage (m - length (got ++ free))),
      length-append got free,
      mem.length-garbage (m - length (got ++ free)),
    ),
    bounds.0,
    omega (arith, bounds, ltb→lt g.rawdata_sz g.size more, sized),
  )
  | inr fits ↦ (free, g.rawdata_sz, stays fits, sized, ground arith, omega (arith, sized))
]
  where
    m : ℕ
    m = round_up g.size

    bounds : (g.size ≤ round_up g.size) × (round_up g.size ≤ 2 ^ 30)
    bounds = round_up_bounds g.size pos small

    grown :
        ltb g.rawdata_sz g.size ≡ true
        → grow mem g
          ≡ ok (
            record g {
              rawdata = got ++ (free ++ mem.garbage (m - length (got ++ free)));
              rawdata_sz = m;
            },
            true,
          )
    grown more = ground (
      arith,
      bounds,
      grants m,
      take_all m (got ++ free),
      append_assoc got free (mem.garbage (m - length (got ++ free))),
    )

    stays :
        ltb g.rawdata_sz g.size ≡ false
        → grow mem g ≡ ok (record g { rawdata = got ++ free; rawdata_sz = g.rawdata_sz }, true)
    stays fits = ground arith
