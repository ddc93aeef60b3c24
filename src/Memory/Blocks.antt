-- ===== src/Memory/Blocks.antt =====
-- Reads and writes at the seam of two parts of a block.
use libwebsock.Prelude.{
  ℕ, zero, suc, ◌+◌, ◌-◌, ◌≤◌, ◌<◌, ◌≡◌, refl, ap, List, [], ◌∷◌, ◌++◌, append-nil, append_assoc,
  arith, length, take, drop, length-append, length-drop, take-length, drop-length, le→leb, lt→leb,
  leb→le, leb, Bool-cases, inl, inr, length-take, take-append-drop, sym, fault, ◌∙◌, Outcome, ok,
  ◌>>=◌, All, get_elem?, replicate,
}
use native.Mathlib.Nat.{zero-add, suc-add}
use libwebsock.Memory.{byte_at, read, write, c_string}

pub drop-append_add {ℓ} :
    {A : Type ℓ} (n : ℕ) (xs ys : List A) → drop (length xs + n) (xs ++ ys) ≡ drop n ys
drop-append_add n [] ys = rw (zero-add)
drop-append_add n (x ∷ xs) ys = rw suc-add (drop-append_add n xs ys)

pub drop_all {ℓ} : {A : Type ℓ} (n : ℕ) (xs : List A) → length xs ≤ n → drop n xs ≡ []
drop_all zero [] h = refl
drop_all zero (x ∷ xs) h = absurd (omega arith)
drop_all (suc n) [] h = refl
drop_all (suc n) (x ∷ xs) h = drop_all n xs (omega arith)

pub take_all {ℓ} : {A : Type ℓ} (n : ℕ) (xs : List A) → length xs ≤ n → take n xs ≡ xs
take_all zero [] h = refl
take_all zero (x ∷ xs) h = absurd (omega arith)
take_all (suc n) [] h = refl
take_all (suc n) (x ∷ xs) h = ap (λ l. x ∷ l) (take_all n xs (omega arith))

-- A write from the seam on replaces the front of the second part.
pub write_seam :
    (at : ℕ) (xs ys bytes : List ℕ)
    → at ≡ length xs
    → length bytes ≤ length ys
    → write (xs ++ ys) at bytes ≡ ok (xs ++ (bytes ++ drop (length bytes) ys))
unfolding write
write_seam at xs ys bytes e h = rw (
  e,
  le→leb (length xs + length bytes) (length (xs ++ ys)) (omega (arith, length-append xs ys)),
  take-length,
  drop-append_add,
)

-- Three writes in a row that fill the second part, and what follows them.
pub write_three {ℓ} :
    {A : Type ℓ} (k : List ℕ → Outcome A) (at at2 at3 : ℕ) (xs ys a b c : List ℕ)
    → at ≡ length xs
    → at2 ≡ length xs + length a
    → at3 ≡ length xs + (length a + length b)
    → length a + length b + length c ≡ length ys
    → (write (xs ++ ys) at a >>= (λ b1. write b1 at2 b >>= (λ b2. write b2 at3 c >>= k)))
      ≡ k (xs ++ (a ++ (b ++ c)))
write_three k at at2 at3 xs ys a b c e e2 e3 h =
    rw (write_seam at xs ys a e (omega arith), ← append_assoc xs a (drop (length a) ys))
      (rw
        (
          write_seam at2 (xs ++ a) (drop (length a) ys) b (omega (arith, length-append xs a))
              (omega (arith, length-drop (length a) ys)),
          ← append_assoc (xs ++ a) b (drop (length b) (drop (length a) ys)),
        )
        (rw (
          write_seam at3 ((xs ++ a) ++ b) (drop (length b) (drop (length a) ys)) c
              (omega (arith, length-append xs a, length-append (xs ++ a) b))
              (omega
                (arith, length-drop (length a) ys, length-drop (length b) (drop (length a) ys))),
          drop_all (length c) (drop (length b) (drop (length a) ys)) (
              omega
                (arith, length-drop (length a) ys, length-drop (length b) (drop (length a) ys))),
          append-nil,
          append_assoc (xs ++ a) b c,
          append_assoc xs a (b ++ c),
        )))

pub read_seam :
    (at n : ℕ) (xs ys : List ℕ)
    → at ≡ length xs
    → n ≤ length ys
    → read (xs ++ ys) at n ≡ ok (take n ys)
unfolding read
read_seam at n xs ys e h = rw (
  e,
  le→leb (length xs + n) (length (xs ++ ys)) (omega (arith, length-append xs ys)),
  drop-length,
)

-- A string is what stands before its NUL.
pub c_string_lem :
    (text rest : List ℕ) → All (λ b. 0 < b) text → c_string (text ++ 0 ∷ rest) ≡ ok text
unfolding c_string
c_string_lem [] rest all = refl
c_string_lem (b ∷ text) rest all = ground (arith, c_string_lem text rest all.1)

get_elem?-append_add {ℓ} :
    {A : Type ℓ} (i : ℕ) (xs ys : List A) → get_elem? (xs ++ ys) (length xs + i) ≡ get_elem? ys i
get_elem?-append_add i [] ys = rw zero-add
get_elem?-append_add i (x ∷ xs) ys = rw suc-add (get_elem?-append_add i xs ys)

-- The byte `i` places past the seam.
pub byte_at_seam :
    (at i : ℕ) (xs ys : List ℕ) → at ≡ length xs + i → byte_at (xs ++ ys) at ≡ byte_at ys i
unfolding byte_at
byte_at_seam at i xs ys e = rw (e, get_elem?-append_add)

pub read_past :
    (at k n : ℕ) (xs ys : List ℕ)
    → at ≡ length xs + k
    → k + n ≤ length ys
    → read (xs ++ ys) at n ≡ ok (take n (drop k ys))
unfolding read
read_past at k n xs ys e h = rw (
  e,
  le→leb (length xs + k + n) (length (xs ++ ys)) (omega (arith, length-append xs ys)),
  drop-append_add,
)

pub drop-replicate {ℓ} :
    {A : Type ℓ} (n m : ℕ) (a : A) → drop n (replicate m a) ≡ replicate (m - n) a
drop-replicate zero m a = let e : m - 0 ≡ m = omega arith in rw e
drop-replicate (suc n) zero a = let e : 0 - suc n ≡ 0 = omega arith in rw e
drop-replicate (suc n) (suc m) a =
    let e : suc m - suc n ≡ m - n = omega arith in rw e (drop-replicate n m a)

pub write_over :
    (block : List ℕ) (at : ℕ) (bytes : List ℕ)
    → length block < at + length bytes
    → write block at bytes ≡ fault
unfolding write
write_over block at bytes h = rw (lt→leb (at + length bytes) (length block) h)

pub drop-drop {ℓ} : {A : Type ℓ} (m n : ℕ) (l : List A) → drop n (drop m l) ≡ drop (m + n) l
drop-drop zero n l = rw zero-add
drop-drop (suc m) n [] = drop_all n [] (omega arith) ∙ sym (drop_all (suc m + n) [] (omega arith))
drop-drop (suc m) n (x ∷ l) = rw suc-add (drop-drop m n l)

write_parts :
    (at : ℕ) (pre post xs ys : List ℕ)
    → at ≡ length pre
    → write (pre ++ post) at (xs ++ ys)
      ≡ (write (pre ++ post) at xs >>= (λ b. write b (at + length xs) ys))
write_parts at pre post xs ys e = elim (Bool-cases (leb (length xs + length ys) (length post))) [
  | inl both ↦
      let room = leb→le (length xs + length ys) (length post) both in
      rw (
        write_seam at pre post (xs ++ ys) e (omega (arith, length-append xs ys)),
        write_seam at pre post xs e (omega arith),
        ← append_assoc pre xs (drop (length xs) post),
        write_seam (at + length xs) (pre ++ xs) (drop (length xs) post) ys
            (omega (arith, length-append pre xs)) (omega (arith, length-drop (length xs) post)),
        drop-drop (length xs) (length ys) post,
        ← length-append xs ys,
        append_assoc xs ys (drop (length (xs ++ ys)) post),
        append_assoc pre xs (ys ++ drop (length (xs ++ ys)) post),
      )
  | inr over ↦
      let short : length post < length xs + length ys = ground (arith, over) in
      let lost =
        write_over (pre ++ post) at (xs ++ ys)
          (omega (arith, length-append xs ys, length-append pre post)) in
      elim (Bool-cases (leb (length xs) (length post))) [
        | inl first ↦
            let fits = leb→le (length xs) (length post) first in
            rw (
              lost,
              write_seam at pre post xs e fits,
              write_over (pre ++ (xs ++ drop (length xs) post)) (at + length xs) ys (
                  omega (
                    arith,
                    length-append pre (xs ++ drop (length xs) post),
                    length-append xs (drop (length xs) post),
                    length-drop (length xs) post,
                  )),
            )
        | inr none_fits ↦ rw (
          lost,
          write_over (pre ++ post) at xs (ground (arith, length-append pre post, none_fits)),
        )
      ]
]

-- A write of two parts in a row is that of the parts one after the other, also where it is a fault.
pub write-append :
    (block : List ℕ) (at : ℕ) (xs ys : List ℕ)
    → write block at (xs ++ ys) ≡ (write block at xs >>= (λ b. write b (at + length xs) ys))
write-append block at xs ys = elim (Bool-cases (leb at (length block))) [
  | inl inside ↦
      let n : at ≡ length (take at block) =
        ground (arith, length-take at block, leb→le at (length block) inside) in
      ap (λ b. write b at (xs ++ ys)) (sym (take-append-drop at block))
      ∙ write_parts at (take at block) (drop at block) xs ys n
      ∙ ap (λ b. write b at xs >>= (λ b. write b (at + length xs) ys)) (take-append-drop at block)
  | inr outside ↦ rw (
    write_over block at (xs ++ ys) (ground (arith, outside)),
    write_over block at xs (ground (arith, outside)),
  )
]
