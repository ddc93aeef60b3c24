-- ===== src/Memory.antt =====
-- Objects in memory as lists of bytes, for src/websock.c and src/util.c (`lws_calloc`,
-- `lws_malloc`, `lws_realloc`). A read or a write that leaves its object is a fault.
-- `size_t` has 64 bits.
pub mod Blocks
use libwebsock.Prelude.{
  ℕ, ◌+◌, ◌-◌, ◌≡◌, Bool, List, [], ◌∷◌, ◌++◌, Outcome, ok, fault, leb, ◌==◌, if◌then◌else◌, length,
  take, drop, get_elem?, access, replicate, allocated, ◌>>=◌, ◌>>◌,
}

-- The C library's allocator: which requests it grants, and what a block holds before it is
-- written. Requests of a fixed small size (the structs and the first 1024 bytes of a frame) are
-- taken to be granted.
pub record Allocator : Type 0 where
  pub fits : ℕ → Bool
  pub garbage : ℕ → List ℕ
  pub length-garbage : (n : ℕ) → length (garbage n) ≡ n

unfoldable pub byte_at : List ℕ → ℕ → Outcome ℕ
byte_at block i = access (get_elem? block i)

unfoldable pub read : List ℕ → ℕ → ℕ → Outcome (List ℕ)
read block at n = if leb (at + n) (length block) then ok (take n (drop at block)) else fault

unfoldable pub write : List ℕ → ℕ → List ℕ → Outcome (List ℕ)
write block at bytes =
    if leb (at + length bytes) (length block)
    then ok (take at block ++ (bytes ++ drop (at + length bytes) block))
    else fault

unfoldable pub lws_calloc : Allocator → ℕ → Outcome (List ℕ)
lws_calloc mem n = do allocated (mem.fits n); ok (replicate n 0)

unfoldable pub lws_malloc : Allocator → ℕ → Outcome (List ℕ)
lws_malloc mem n = do allocated (mem.fits n); ok (mem.garbage n)

-- The block keeps its bytes up to the smaller size.
unfoldable pub lws_realloc : Allocator → List ℕ → ℕ → Outcome (List ℕ)
lws_realloc mem block n = do
  allocated (mem.fits n)
  ok (take n block ++ mem.garbage (n - length block))

-- The string at the start of an object, up to its NUL.
unfoldable pub c_string : List ℕ → Outcome (List ℕ)
c_string [] = fault
c_string (b ∷ bs) = let rest = c_string bs >>= (λ s. ok (b ∷ s)) in if b == 0 then ok [] else rest
