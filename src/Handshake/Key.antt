-- ===== src/Handshake/Key.antt =====
-- The key of the request, and the digest of it that the answer carries.
use libwebsock.Prelude.{
  ℕ, ◌+◌, ◌/◌, ◌%◌, ◌^◌, ◌≤◌, ◌<◌, ◌≡◌, refl, ◌∙◌, ap, sym, List, [], ◌∷◌, ◌++◌, append_assoc,
  append-nil, arith, All, length, length-append, length-drop, drop, replicate, ok, fault, leb,
  Bool-cases, inl, inr, leb→le,
}
use libwebsock.Memory.{write}
use libwebsock.Memory.Blocks.{write_seam, write_over, take_all, c_string_lem}
use libwebsock.CStrings.{hex_digit, hex_value, hex8, hex_bytes}
use libwebsock.Handshake.{Digest, print_at, gid, concatenated, digest_bytes}

-- A string that is written from a seam on continues the string in front of it.
pub write_string :
    (at : ℕ) (xs ys bytes : List ℕ)
    → at ≡ length xs
    → length bytes < length ys
    → write (xs ++ ys) at (bytes ++ 0 ∷ []) ≡ ok ((xs ++ bytes) ++ 0 ∷ drop (length bytes + 1) ys)
write_string at xs ys bytes e room =
    let size : length (bytes ++ 0 ∷ []) ≡ length bytes + 1 = length-append {0} bytes (0 ∷ []) in
    write_seam at xs ys (bytes ++ 0 ∷ []) e (omega (arith, size))
    ∙ rw
        (
          size,
          append_assoc bytes (0 ∷ []) (drop (length bytes + 1) ys),
          append_assoc xs bytes (0 ∷ drop (length bytes + 1) ys),
        )
        refl

pub print_at_lem :
    (at : ℕ) (xs ys bytes : List ℕ)
    → at ≡ length xs
    → length bytes ≤ 1023
    → length bytes < length ys
    → print_at (xs ++ ys) at bytes ≡ ok ((xs ++ bytes) ++ 0 ∷ drop (length bytes + 1) ys)
unfolding print_at
print_at_lem at xs ys bytes e short room =
    rw (take_all 1023 bytes short) (write_string at xs ys bytes e room)

gid_positive : All (λ b. 0 < b) gid
gid_positive = omega arith

pub All-positive :
    (xs ys : List ℕ) → All (λ b. 0 < b) xs → All (λ b. 0 < b) ys → All (λ b. 0 < b) (xs ++ ys)
All-positive [] ys h k = k
All-positive (x ∷ xs) ys h k = (h.0, All-positive xs ys h.1 k)

module _ (key rest : List ℕ) (all : All (λ b. 0 < b) key) where
  first_written :
      length key < 1024
      → write (replicate 1024 0) 0 (key ++ 0 ∷ [])
        ≡ ok (key ++ 0 ∷ drop (length key + 1) (replicate 1024 0))
  first_written short = write_string 0 [] (replicate 1024 0) key refl (omega arith)

  pub concatenated-short : length key ≤ 987 → concatenated (key ++ 0 ∷ rest) ≡ ok (key ++ gid)
  unfolding concatenated
  concatenated-short short = rw (
    c_string_lem key rest all,
    first_written (omega (arith, short)),
    write_string (length key) key (0 ∷ drop (length key + 1) (replicate 1024 0)) gid refl
        (omega (arith, short, length-drop (length key + 1) (replicate {A = ℕ} 1024 0))),
    c_string_lem (key ++ gid) (drop (length gid + 1) (0 ∷ drop (length key + 1) (replicate 1024 0)))
        (All-positive key gid all gid_positive),
  )

  pub concatenated-long : 987 < length key → concatenated (key ++ 0 ∷ rest) ≡ fault
  unfolding concatenated
  concatenated-long long = elim (Bool-cases (leb 1024 (length key))) [
    | inl beyond ↦ rw (
      c_string_lem key rest all,
      write_over (replicate 1024 0) 0 (key ++ 0 ∷ [])
          (omega (arith, leb→le 1024 (length key) beyond, length-append {0} key (0 ∷ []))),
    )
    | inr within ↦ rw (
      c_string_lem key rest all,
      first_written (ground (arith, within)),
      write_over (key ++ 0 ∷ drop (length key + 1) (replicate 1024 0)) (length key) (gid ++ 0 ∷ [])
          (ground (
            arith,
            within,
            long,
            length-append {0} key (0 ∷ drop (length key + 1) (replicate 1024 0)),
            length-drop (length key + 1) (replicate {A = ℕ} 1024 0),
          )),
    )
  ]

-- A digit is read back.
digit_read : (d : ℕ) → d < 16 → hex_value (hex_digit d) ≡ d
unfolding hex_value hex_digit
digit_read d small = ground arith

-- The bytes of a word, its highest first.
abbrev pub word_bytes : ℕ → List ℕ
word_bytes w = (w / 2 ^ 24 % 256) ∷ (w / 2 ^ 16 % 256) ∷ (w / 2 ^ 8 % 256) ∷ (w % 256) ∷ []

hex_bytes-hex8 :
    (w : ℕ) (digits : List ℕ) → hex_bytes (hex8 w ++ digits) ≡ word_bytes w ++ hex_bytes digits
unfolding hex_bytes hex8
hex_bytes-hex8 w digits =
    rw
      (
        digit_read (w / 2 ^ 28 % 16) (omega arith),
        digit_read (w / 2 ^ 24 % 16) (omega arith),
        digit_read (w / 2 ^ 20 % 16) (omega arith),
        digit_read (w / 2 ^ 16 % 16) (omega arith),
        digit_read (w / 2 ^ 12 % 16) (omega arith),
        digit_read (w / 2 ^ 8 % 16) (omega arith),
        digit_read (w / 2 ^ 4 % 16) (omega arith),
        digit_read (w % 16) (omega arith),
      )
      (ground arith)

hex_bytes_last : (w : ℕ) → hex_bytes (hex8 w) ≡ word_bytes w
unfolding hex_bytes
hex_bytes_last w = ap hex_bytes (sym (append-nil (hex8 w))) ∙ hex_bytes-hex8 w []

-- The words of the digest, written in hexadecimal and read back two digits at a time, are its 20
-- bytes, the highest byte of each word first.
pub digest_bytes_lem :
    (d : Digest)
    → digest_bytes d
      ≡ word_bytes d.word0
        ++ (word_bytes d.word1
            ++ (word_bytes d.word2 ++ (word_bytes d.word3 ++ word_bytes d.word4)))
unfolding digest_bytes
digest_bytes_lem d =
    rw
      (
        hex_bytes-hex8 d.word0 (hex8 d.word1 ++ (hex8 d.word2 ++ (hex8 d.word3 ++ hex8 d.word4))),
        hex_bytes-hex8 d.word1 (hex8 d.word2 ++ (hex8 d.word3 ++ hex8 d.word4)),
        hex_bytes-hex8 d.word2 (hex8 d.word3 ++ hex8 d.word4),
        hex_bytes-hex8 d.word3 (hex8 d.word4),
        hex_bytes_last d.word4,
      )
      refl
