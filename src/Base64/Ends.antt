-- ===== src/Base64/Ends.antt =====
-- The loops of `base64_decode` come to an end within the source and the four "=" behind it.
use mathlib.Core.Path.{subst}
use libwebsock.Prelude.{
  sym, ℕ, ◌+◌, ◌-◌, ◌%◌, ◌^◌, ◌≤◌, ◌<◌, ◌≡◌, refl, ◌∙◌, true, false, List, [], ◌∷◌, ◌++◌, arith,
  Option, none, some, length, length-append, length-take, length-drop, Outcome, ok, le→leb, ltb,
  lt→ltb, Bool-cases, inl, inr, ◌==◌, All, take, drop,
}
use libwebsock.Memory.{Allocator, write, lws_malloc}
use libwebsock.Memory.Blocks.{c_string_lem}
use libwebsock.Base64.{decode_triple, is_skipped, decode_loop, base64_decode}
use libwebsock.Base64.Decode.{padding, equals_taken}
use libwebsock.Base64.Counts.{padded-bytes}

-- How many bytes a return value says to have been written, within a bound.
abbrev pub Within : ℕ → Option ℕ → Type 0
Within bound none = Unit
Within bound (some n) = n ≤ bound

-- A run that returns, with a target that keeps its length and no more bytes than it has room for.
abbrev pub Ends : List ℕ → ℕ → Outcome (List ℕ × Option ℕ) → Type 0
Ends target bound run =
    (r : List ℕ × Option ℕ) × (run ≡ ok r) × (length r.0 ≡ length target) × Within bound r.1

write_fits :
    (block bytes : List ℕ) (at : ℕ)
    → at + length bytes ≤ length block
    → (b : List ℕ) × (write block at bytes ≡ ok b) × (length b ≡ length block)
unfolding write
write_fits block bytes at room = (
  take at block ++ (bytes ++ drop (at + length bytes) block),
  rw (le→leb (at + length bytes) (length block) room) refl,
  omega (
    arith,
    room,
    length-append (take at block) (bytes ++ drop (at + length bytes) block),
    length-append bytes (drop (at + length bytes) block),
    length-take at block,
    length-drop (at + length bytes) block,
  ),
)

-- At the fourth character the loop ends, or goes on with three bytes more in the target.
module _ (p q r t : ℕ) (bs target : List ℕ) (len conv : ℕ) (taken : is_skipped t ≡ false)
    (room : conv + len ≤ length target) where
  abbrev result : List ℕ
  result = decode_triple (p ∷ q ∷ r ∷ t ∷ [])

  fourth-Ends :
      (length result ≡ 3
        → (written : List ℕ) → length written ≡ length target
        → length result ≤ len
        → Ends target
            (conv + len)
            (decode_loop [] bs written (len - length result) (conv + length result)))
      → Ends target (conv + len) (decode_loop (p ∷ q ∷ r ∷ []) (t ∷ bs) target len conv)
  unfolding decode_loop
  fourth-Ends goes_on = rw taken (elim (Bool-cases (ltb len (length result))) [
    | inl over ↦ rw over ((target, none), refl, refl, tt)
    | inr fits ↦
        let enough : length result ≤ len = ground (arith, fits) in
        let (written, put, same) = write_fits target result conv (omega (arith, enough)) in
        rw (fits, put)
          (elim (Bool-cases (length result == 3)) [
            | inl full ↦ rw full (goes_on (ground (arith, full)) written same enough)
            | inr short ↦ rw short ((written, some (conv + length result)), refl, same, omega arith)
          ])
  ])

-- The end of a run on what has been written is one on the target.
Ends-written :
    (target written : List ℕ) (bound bound' : ℕ) (run : Outcome (List ℕ × Option ℕ))
    → length written ≡ length target
    → bound ≤ bound'
    → Ends written bound run
    → Ends target bound' run
Ends-written target written bound bound' run same less (r, e, kept, within) =
    (r, e, kept ∙ same, weaker r.1 within)
  where
    weaker : (n : Option ℕ) → Within bound n → Within bound' n
    weaker none h = tt
    weaker (some n) h = omega arith

keeps :
    (b : ℕ) (rest quadruple target : List ℕ) (len conv : ℕ)
    → is_skipped b ≡ false
    → length quadruple < 3
    → decode_loop quadruple (b ∷ rest) target len conv
      ≡ decode_loop (quadruple ++ b ∷ []) rest target len conv
unfolding decode_loop
keeps b rest quadruple target len conv taken below =
    rw (taken, lt→ltb (length quadruple) 3 below) refl

-- Three characters and one "=" end the loop.
last_equals :
    (p q r : ℕ) (rest target : List ℕ) (len conv : ℕ)
    → conv + len ≤ length target
    → Ends target (conv + len) (decode_loop (p ∷ q ∷ r ∷ []) (0x3d ∷ rest) target len conv)
last_equals p q r rest target len conv room =
    fourth-Ends p q r 0x3d rest target len conv equals_taken room
      (λ full. absurd (omega (arith, padded-bytes p q r)))

one_equals :
    (quadruple rest target : List ℕ) (len conv : ℕ)
    → length quadruple < 3
    → Ends target (conv + len) (decode_loop (quadruple ++ 0x3d ∷ []) rest target len conv)
    → Ends target (conv + len) (decode_loop quadruple (0x3d ∷ rest) target len conv)
one_equals quadruple rest target len conv below =
    subst (Ends target (conv + len))
      (sym (keeps 0x3d rest quadruple target len conv equals_taken below))

decode_loop-padding :
    (quadruple target : List ℕ) (len conv : ℕ)
    → length quadruple ≤ 3
    → conv + len ≤ length target
    → Ends target (conv + len) (decode_loop quadruple padding target len conv)
decode_loop-padding [] target len conv few room = one_equals [] _ target len conv (omega arith) (
    one_equals (0x3d ∷ []) _ target len conv (omega arith) (
      one_equals (0x3d ∷ 0x3d ∷ []) _ target len conv (omega arith)
        (last_equals 0x3d 0x3d 0x3d (0 ∷ []) target len conv room)))
decode_loop-padding (p ∷ []) target len conv few room =
    one_equals (p ∷ []) _ target len conv (omega arith) (
      one_equals (p ∷ 0x3d ∷ []) _ target len conv (omega arith)
        (last_equals p 0x3d 0x3d (0x3d ∷ 0 ∷ []) target len conv room))
decode_loop-padding (p ∷ q ∷ []) target len conv few room =
    one_equals (p ∷ q ∷ []) _ target len conv (omega arith)
      (last_equals p q 0x3d (0x3d ∷ 0x3d ∷ 0 ∷ []) target len conv room)
decode_loop-padding (p ∷ q ∷ r ∷ []) target len conv few room =
    last_equals p q r (0x3d ∷ 0x3d ∷ 0x3d ∷ 0 ∷ []) target len conv room
decode_loop-padding (p ∷ q ∷ r ∷ t ∷ more) target len conv few room = absurd (omega arith)

-- One character: it is skipped, is kept for the quadruple, or fills it.
loop_character :
    (b : ℕ) (rest quadruple target : List ℕ) (len conv : ℕ)
    → conv + len ≤ length target
    → length quadruple ≤ 3
    → Ends target (conv + len) (decode_loop quadruple rest target len conv)
    → (length quadruple < 3
        → Ends target (conv + len) (decode_loop (quadruple ++ b ∷ []) rest target len conv))
    → ((written : List ℕ)
        → length written ≡ length target
        → 3 ≤ len
        → Ends written (conv + len) (decode_loop [] rest written (len - 3) (conv + 3)))
    → Ends target (conv + len) (decode_loop quadruple (b ∷ rest) target len conv)
unfolding decode_loop
loop_character b rest quadruple target len conv room few skipped kept full =
    elim (Bool-cases (is_skipped b)) [
      | inl skips ↦ rw skips skipped
      | inr taken ↦ elim (Bool-cases (ltb (length quadruple) 3)) [
        | inl below ↦ rw (taken, below) (kept (ground (arith, below)))
        | inr three ↦ fills quadruple few (ground (arith, three)) taken
      ]
    ]
  where
    fills :
        (quadruple : List ℕ)
        → length quadruple ≤ 3
        → 3 ≤ length quadruple
        → is_skipped b ≡ false
        → Ends target (conv + len) (decode_loop quadruple (b ∷ rest) target len conv)
    fills (p ∷ q ∷ r ∷ []) few many taken =
        fourth-Ends p q r b rest target len conv taken room (λ three written same enough.
          let fits : 3 ≤ len = omega arith in
          rw three (Ends-written target written _ _ _ same (omega arith) (full written same fits)))
    fills [] few many taken = absurd (omega arith)
    fills (p ∷ []) few many taken = absurd (omega arith)
    fills (p ∷ q ∷ []) few many taken = absurd (omega arith)
    fills (p ∷ q ∷ r ∷ t ∷ more) few many taken = absurd (omega arith)

decode_loop-Ends :
    (text quadruple target : List ℕ) (len conv : ℕ)
    → length quadruple ≤ 3
    → conv + len ≤ length target
    → Ends target (conv + len) (decode_loop quadruple (text ++ padding) target len conv)
decode_loop-Ends [] quadruple target len conv few room =
    decode_loop-padding quadruple target len conv few room
decode_loop-Ends (b ∷ text) quadruple target len conv few room =
    loop_character b (text ++ padding) quadruple target len conv room few
      (decode_loop-Ends text quadruple target len conv few room)
      (λ below.
        decode_loop-Ends text (quadruple ++ b ∷ []) target len conv
          (omega (arith, length-append quadruple (b ∷ []))) room)
      (λ written same fits.
        Ends-written written written _ _ _ refl (omega arith)
          (decode_loop-Ends text [] written (len - 3) (conv + 3) (omega arith) (omega arith)))

-- With memory, on any string and with a length that the target has, `base64_decode` returns: its
-- loops end before they have read the string's "====" and NUL to the end, whatever characters the
-- string has. The target keeps its length, and the number of bytes that is returned, if it is not
-- -1, is at most the length given.
pub base64_decode-Ends :
    (mem : Allocator) (text rest target : List ℕ) (targetlen : ℕ)
    → All (λ b. 0 < b) text
    → targetlen ≤ length target
    → mem.fits ((length text + 5) % 2 ^ 64) ≡ true
    → Ends target targetlen (base64_decode mem (text ++ 0 ∷ rest) target targetlen)
unfolding base64_decode lws_malloc
base64_decode-Ends mem text rest target targetlen positive room granted =
    rw (c_string_lem text rest positive, granted)
      (Ends-written target target _ _ _ refl (omega arith)
        (decode_loop-Ends text [] target targetlen 0 (omega arith) (omega arith)))
