-- ===== src/Safety/Blocks.antt =====
-- Accesses inside a block: they do not fault, and they keep the block a block.
use libwebsock.Prelude.{
  ℕ, zero, suc, ◌+◌, ◌-◌, ◌≤◌, ◌<◌, ◌^◌, ◌≡◌, refl, ◌∙◌, List, [], ◌∷◌, ◌++◌, arith, All, length,
  length-append, length-take, length-drop, take, drop, get_or, replicate, ok, Safely, le→leb,
  Bool-cases, inl, inr,
}
use libwebsock.Memory.{Allocator, byte_at, read, write, lws_realloc}
use libwebsock.Dispatch.Masking.{Octets}
use libwebsock.Safety.{IsBounded}

module _ {ℓ} {A : Type ℓ} (P : A → Type 0) where
  pub All-append : (xs ys : List A) → All P xs → All P ys → All P (xs ++ ys)
  All-append [] ys h k = k
  All-append (x ∷ xs) ys h k = (h.0, All-append xs ys h.1 k)

  pub All-take : (n : ℕ) (xs : List A) → All P xs → All P (take n xs)
  All-take zero xs h = tt
  All-take (suc n) [] h = tt
  All-take (suc n) (x ∷ xs) h = (h.0, All-take n xs h.1)

  pub All-drop : (n : ℕ) (xs : List A) → All P xs → All P (drop n xs)
  All-drop zero xs h = h
  All-drop (suc n) [] h = tt
  All-drop (suc n) (x ∷ xs) h = All-drop n xs h.1

pub Octets-replicate : (n : ℕ) → Octets (replicate n 0)
Octets-replicate zero = tt
Octets-replicate (suc n) = (omega arith, Octets-replicate n)

-- What a write leaves.
pub record Written (block : List ℕ) (at : ℕ) (bytes out : List ℕ) : Type 0 where
  pub same_size : length out ≡ length block
  pub octets : Octets out
  pub first : 0 < at → get_or out 0 0 ≡ get_or block 0 0
  pub first_new : at ≡ 0 → get_or out 0 0 ≡ get_or bytes 0 (get_or out 0 0)

get_or-append : (xs ys : List ℕ) → 0 < length xs → get_or (xs ++ ys) 0 0 ≡ get_or xs 0 0
get_or-append [] ys h = absurd (omega arith)
get_or-append (x ∷ xs) ys h = refl

get_or-take : (n : ℕ) (xs : List ℕ) → 0 < n → get_or (take n xs) 0 0 ≡ get_or xs 0 0
get_or-take zero xs h = absurd (omega arith)
get_or-take (suc n) [] h = refl
get_or-take (suc n) (x ∷ xs) h = refl

written_first :
    (at : ℕ) (bytes rest block : List ℕ)
    → at ≡ 0
    → get_or (take at block ++ (bytes ++ rest)) 0 0
      ≡ get_or bytes 0 (get_or (take at block ++ (bytes ++ rest)) 0 0)
written_first at [] rest block e = refl
written_first at (b ∷ bytes) rest block e = rw e refl

pub write-Safely :
    (block : List ℕ) (at : ℕ) (bytes : List ℕ)
    → at + length bytes ≤ length block
    → Octets block
    → Octets bytes
    → Safely (Written block at bytes) (write block at bytes)
unfolding write
write-Safely block at bytes room octets new =
    rw (le→leb (at + length bytes) (length block) room) (record {
      same_size = omega (
        arith,
        length-append (take at block) (bytes ++ drop (at + length bytes) block),
        length-append bytes (drop (at + length bytes) block),
        length-take at block,
        length-drop (at + length bytes) block,
      );
      octets =
          All-append (λ b. b < 256) (take at block) (bytes ++ drop (at + length bytes) block)
            (All-take (λ b. b < 256) at block octets)
            (All-append (λ b. b < 256) bytes (drop (at + length bytes) block) new
              (All-drop (λ b. b < 256) (at + length bytes) block octets));
      first = λ later.
          get_or-append (take at block) (bytes ++ drop (at + length bytes) block)
            (omega (arith, length-take at block))
          ∙ get_or-take at block later;
      first_new = written_first at bytes (drop (at + length bytes) block) block;
    })

pub byte_at-Safely :
    (block : List ℕ) (i : ℕ)
    → i < length block
    → Octets block
    → Safely (λ b. b < 256) (byte_at block i)
unfolding byte_at
byte_at-Safely [] i inside octets = absurd (omega arith)
byte_at-Safely (b ∷ block) zero inside octets = octets.0
byte_at-Safely (b ∷ block) (suc i) inside octets = byte_at-Safely block i (omega arith) octets.1

pub byte_at-first : (block : List ℕ) → 0 < length block → byte_at block 0 ≡ ok (get_or block 0 0)
unfolding byte_at
byte_at-first [] inside = absurd (omega arith)
byte_at-first (b ∷ block) inside = refl

pub read-Safely :
    (block : List ℕ) (at n : ℕ)
    → at + n ≤ length block
    → Octets block
    → Safely (λ bytes. (length bytes ≡ n) × Octets bytes) (read block at n)
unfolding read
read-Safely block at n room octets = rw (le→leb (at + n) (length block) room) (
  omega (arith, length-take n (drop at block), length-drop at block),
  All-take (λ b. b < 256) n (drop at block) (All-drop (λ b. b < 256) at block octets),
)

-- A block of another size.
pub record Resized (block : List ℕ) (n : ℕ) (out : List ℕ) : Type 0 where
  pub positive : 0 < n
  pub small : n < 2 ^ 31
  pub new_size : length out ≡ n
  pub octets : Octets out
  pub first : 0 < length block → get_or out 0 0 ≡ get_or block 0 0

pub lws_realloc-Safely :
    (mem : Allocator) (block : List ℕ) (n : ℕ)
    → IsBounded mem
    → Octets block
    → Safely (Resized block n) (lws_realloc mem block n)
unfolding lws_realloc
lws_realloc-Safely mem block n bounded octets = elim (Bool-cases (mem.fits n)) [
  | inr refused ↦ rw refused tt
  | inl fits ↦
      let (positive, small) = bounded.granted n fits in
      rw fits (record {
        positive = positive;
        small = small;
        new_size = omega (
          arith,
          length-append (take n block) (mem.garbage (n - length block)),
          length-take n block,
          mem.length-garbage (n - length block),
        );
        octets =
            All-append (λ b. b < 256) (take n block) (mem.garbage (n - length block))
              (All-take (λ b. b < 256) n block octets) (bounded.bytes (n - length block));
        first = λ some_byte.
            get_or-append (take n block) (mem.garbage (n - length block))
              (omega (arith, length-take n block))
            ∙ get_or-take n block positive;
      })
]
