-- ===== src/Dispatch/Masking.antt =====
-- Masking is its own inverse.
use libwebsock.Prelude.{
  ℕ, zero, suc, ◌+◌, ◌%◌, ◌<◌, ◌≡◌, refl, ap, List, [], ◌∷◌, arith, All, get_or, length,
  bit_xor_twice, bit_xor-lt,
}
use libwebsock.Wire.{masked}
use libwebsock.Dispatch.{demask}

-- Bytes are below 256.
abbrev pub Octets : List ℕ → Type 0
Octets bs = All (λ b. b < 256) bs

pub get_or-lt : (bs : List ℕ) (i : ℕ) → Octets bs → get_or bs i 0 < 256
get_or-lt [] i h = omega arith
get_or-lt (b ∷ bs) zero h = h.0
get_or-lt (b ∷ bs) (suc i) h = get_or-lt bs i h.1

pub length-demask : (mask : List ℕ) (i : ℕ) (bs : List ℕ) → length (demask mask i bs) ≡ length bs
unfolding demask
length-demask mask i [] = refl
length-demask mask i (b ∷ bs) = ap suc (length-demask mask (i + 1) bs)

-- Demasking with the key that a peer masked with gives the peer's bytes back, at every position
-- of the key.
pub demask_twice :
    (mask : List ℕ) (i : ℕ) (bs : List ℕ)
    → Octets mask
    → Octets bs
    → demask mask i (demask mask i bs) ≡ bs
unfolding demask
demask_twice mask i [] m h = refl
demask_twice mask i (b ∷ bs) m h = rw (
  bit_xor_twice b (get_or mask (i % 4) 0) h.0 (get_or-lt mask (i % 4) m),
  demask_twice mask (i + 1) bs m h.1,
)

-- The key in turn, from index `i` on.
demask_turns :
    (key : List ℕ) (i : ℕ) (ps : List ℕ)
    → demask key i ps
      ≡ masked
          (get_or key (i % 4) 0)
          (get_or key ((i + 1) % 4) 0)
          (get_or key ((i + 2) % 4) 0)
          (get_or key ((i + 3) % 4) 0)
          ps
unfolding demask masked
demask_turns key i [] = refl
demask_turns key i (p ∷ ps) =
    let e2 : (i + 1 + 1) % 4 ≡ (i + 2) % 4 = omega arith in
    let e3 : (i + 1 + 2) % 4 ≡ (i + 3) % 4 = omega arith in
    let e4 : (i + 1 + 3) % 4 ≡ i % 4 = omega arith in rw (demask_turns key (i + 1) ps, e2, e3, e4)

-- The index `i % 4` into the key takes its bytes in turn, as the peer does.
pub demask-masked :
    (k0 k1 k2 k3 : ℕ) (ps : List ℕ) → demask (k0 ∷ k1 ∷ k2 ∷ k3 ∷ []) 0 ps ≡ masked k0 k1 k2 k3 ps
demask-masked k0 k1 k2 k3 ps = demask_turns (k0 ∷ k1 ∷ k2 ∷ k3 ∷ []) 0 ps

pub demask-Octets :
    (mask : List ℕ) (i : ℕ) (bs : List ℕ) → Octets mask → Octets bs → Octets (demask mask i bs)
unfolding demask
demask-Octets mask i [] m h = tt
demask-Octets mask i (b ∷ bs) m h = (
  bit_xor-lt b (get_or mask (i % 4) 0) h.0 (get_or-lt mask (i % 4) m),
  demask-Octets mask (i + 1) bs m h.1,
)
