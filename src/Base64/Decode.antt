-- ===== src/Base64/Decode.antt =====
-- What `base64_encode` writes is decoded to what it was made of.
use libwebsock.Prelude.{
  ℕ, suc, ◌+◌, ◌-◌, ◌%◌, ◌^◌, ◌≤◌, ◌<◌, ◌≡◌, refl, ◌∙◌, ap, true, false, List, [], ◌∷◌, ◌++◌,
  append_assoc, arith, Option, some, length, length-append, length-drop, drop, Outcome, ok, ◌>>=◌,
  le→ltb, if◌then◌else◌, ◌==◌, all_below, all_below_sound, not,
}
use libwebsock.Memory.{Allocator, write, lws_malloc}
use libwebsock.Memory.Blocks.{drop-drop, write_seam, c_string_lem}
use libwebsock.Dispatch.Masking.{Octets}
use libwebsock.Base64.{
  check_chars, big_value, value_bytes, char_of, char_value, encode_triple, encode_source,
  decode_triple, is_skipped, decode_loop, base64_decode,
}
use libwebsock.Base64.Characters.{encode_source-positive}
use libwebsock.Base64.Triples.{decode_triple-encode_source}

char_of-taken : (v : ℕ) → v < 64 → is_skipped (char_of v) ≡ false
unfolding all_below is_skipped char_value char_of
char_of-taken v small =
    ground (arith, all_below_sound 64 (λ v. not (is_skipped (char_of v))) v refl small)

-- What four characters come to.
module _ (p q r t : ℕ) (taken_p : is_skipped p ≡ false) (taken_q : is_skipped q ≡ false)
    (taken_r : is_skipped r ≡ false) (taken_t : is_skipped t ≡ false) where
  decode_loop-four :
      (rest target result : List ℕ) (len conv : ℕ)
      → decode_triple (p ∷ q ∷ r ∷ t ∷ []) ≡ result
      → length result ≤ len
      → decode_loop [] (p ∷ q ∷ r ∷ t ∷ rest) target len conv ≡ (
          write target conv result >>= (λ written.
            if length result == 3
            then decode_loop [] rest written (len - length result) (conv + length result)
            else ok (written, some (conv + length result))))
  unfolding decode_loop
  decode_loop-four rest target result len conv e room =
      rw (taken_p, taken_q, taken_r, taken_t, e, le→ltb len (length result) room) refl

-- What stands behind the source.
abbrev pub padding : List ℕ
padding = 0x3d ∷ 0x3d ∷ 0x3d ∷ 0x3d ∷ 0 ∷ []

pub equals_taken : is_skipped 0x3d ≡ false
unfolding is_skipped
equals_taken = refl

no_bytes : decode_triple (0x3d ∷ 0x3d ∷ 0x3d ∷ 0x3d ∷ []) ≡ []
unfolding decode_triple check_chars char_value big_value value_bytes
no_bytes = refl

decode_loop-encode_source :
    (bs finished free : List ℕ) (len : ℕ)
    → Octets bs
    → length bs ≤ len
    → length bs ≤ length free
    → decode_loop [] (encode_source bs ++ padding) (finished ++ free) len (length finished)
      ≡ ok (finished ++ (bs ++ drop (length bs) free), some (length finished + length bs))
unfolding encode_source encode_triple
decode_loop-encode_source [] finished free len octets fits room =
    decode_loop-four 0x3d 0x3d 0x3d 0x3d equals_taken equals_taken equals_taken equals_taken
      (0 ∷ []) (finished ++ free) [] len (length finished) no_bytes (omega arith)
    ∙ rw (write_seam (length finished) finished free [] refl (omega arith)) refl
decode_loop-encode_source (a ∷ []) finished free len octets fits room =
    decode_loop-four _ _ 0x3d 0x3d (char_of-taken _ (omega arith)) (char_of-taken _ (omega arith))
      equals_taken equals_taken padding (finished ++ free) (a ∷ []) len (length finished)
      (decode_triple-encode_source (a ∷ []) (omega arith) (omega arith) octets) (omega arith)
    ∙ rw (write_seam (length finished) finished free (a ∷ []) refl (omega arith)) refl
decode_loop-encode_source (a ∷ b ∷ []) finished free len octets fits room =
    decode_loop-four _ _ _ 0x3d (char_of-taken _ (omega arith)) (char_of-taken _ (omega arith))
      (char_of-taken _ (omega arith)) equals_taken padding (finished ++ free) (a ∷ b ∷ []) len
      (length finished)
      (decode_triple-encode_source (a ∷ b ∷ []) (omega arith) (omega arith) octets) (omega arith)
    ∙ rw (write_seam (length finished) finished free (a ∷ b ∷ []) refl (omega arith)) refl
decode_loop-encode_source (a ∷ b ∷ c ∷ bs) finished free len octets fits room =
    let three : List ℕ = a ∷ b ∷ c ∷ [] in
    decode_loop-four _ _ _ _ (char_of-taken _ (omega arith)) (char_of-taken _ (omega arith))
      (char_of-taken _ (omega arith)) (char_of-taken _ (omega arith)) (encode_source bs ++ padding)
      (finished ++ free) three len (length finished)
      (decode_triple-encode_source three (omega arith) (omega arith)
        (octets.0, (octets.1.0, (octets.1.1.0, tt))))
      (omega arith)
    ∙ rw (write_seam (length finished) finished free three refl (omega arith)) (
        starts
        ∙ decode_loop-encode_source bs (finished ++ three) (drop 3 free) (len - 3) octets.1.1.1
            (omega arith) (omega (arith, length-drop 3 free))
        ∙ ends)
  where
    more : length (finished ++ a ∷ b ∷ c ∷ []) ≡ length finished + 3
    more = length-append {0} finished (a ∷ b ∷ c ∷ [])

    starts :
        decode_loop []
          (encode_source bs ++ padding)
          (finished ++ a ∷ b ∷ c ∷ drop 3 free)
          (len - 3)
          (length finished + 3)
        ≡ decode_loop []
            (encode_source bs ++ padding)
            ((finished ++ a ∷ b ∷ c ∷ []) ++ drop 3 free)
            (len - 3)
            (length (finished ++ a ∷ b ∷ c ∷ []))
    starts = rw (more, append_assoc finished (a ∷ b ∷ c ∷ []) (drop 3 free)) refl

    total : length finished + 3 + length bs ≡ length finished + suc (suc (suc (length bs)))
    total = omega arith

    behind : drop (length bs) (drop 3 free) ≡ drop (suc (suc (suc (length bs)))) free
    behind =
        let e : 3 + length bs ≡ suc (suc (suc (length bs))) = omega arith in
        drop-drop 3 (length bs) free ∙ ap (λ n. drop n free) e

    ends :
        ◌≡◌ {A = Outcome (List ℕ × Option ℕ)}
          (ok (
            (finished ++ a ∷ b ∷ c ∷ []) ++ (bs ++ drop (length bs) (drop 3 free)),
            some (length (finished ++ a ∷ b ∷ c ∷ []) + length bs),
          ))
          (ok (
            finished ++ a ∷ b ∷ c ∷ (bs ++ drop (suc (suc (suc (length bs)))) free),
            some (length finished + suc (suc (suc (length bs)))),
          ))
    ends =
        rw
          (
            more,
            total,
            behind,
            append_assoc finished (a ∷ b ∷ c ∷ []) (bs ++ drop (suc (suc (suc (length bs)))) free),
          )
          refl

-- With memory, the string that the encoder writes is decoded to the bytes that it was made
-- of: they are at the front of the target, the rest of it is left, and their number is returned, on
-- a target and with a length of it that have room for them.
pub base64_decode-encode_source :
    (mem : Allocator) (bs rest target : List ℕ) (targetlen : ℕ)
    → Octets bs
    → length bs ≤ targetlen
    → length bs ≤ length target
    → mem.fits ((length (encode_source bs) + 5) % 2 ^ 64) ≡ true
    → base64_decode mem (encode_source bs ++ 0 ∷ rest) target targetlen
      ≡ ok (bs ++ drop (length bs) target, some (length bs))
unfolding base64_decode lws_malloc
base64_decode-encode_source mem bs rest target targetlen octets fits room granted =
    rw (c_string_lem (encode_source bs) rest (encode_source-positive bs), granted)
      (decode_loop-encode_source bs [] target targetlen octets fits room ∙ from_zero)
  where
    from_zero :
        ◌≡◌ {A = Outcome (List ℕ × Option ℕ)}
          (ok (bs ++ drop (length bs) target, some (0 + length bs)))
          (ok (bs ++ drop (length bs) target, some (length bs)))
    from_zero = let e : 0 + length bs ≡ length bs = omega arith in rw e refl
