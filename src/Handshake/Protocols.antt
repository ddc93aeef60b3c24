-- ===== src/Handshake/Protocols.antt =====
-- The subprotocol that is chosen of those that the client asks for.
use libwebsock.Prelude.{
  ℕ, ◌+◌, ◌-◌, ◌<◌, ◌≡◌, refl, ap, sym, true, false, List, [], ◌∷◌, ◌++◌, append_assoc, append-nil,
  arith, All, Option, none, some, length, length-append, length-drop, length-replicate, take, drop,
  replicate, ok, fault, ◌>>=◌, lt→ltb, le→ltb, Bool-cases, inl, inr,
}
use mathlib.Core.Path.{subst}
use mathlib.Core.List.{Memᴰ}
use libwebsock.Memory.{write}
use libwebsock.Memory.Blocks.{write_seam, drop_all}
use libwebsock.CStrings.{nonempty, segments, tokens}
use libwebsock.Handshake.Supported.{is_supported-Mem, not_supported, supported_not}
use libwebsock.Handshake.Strings.{pieces_of_string, pieces_of_array}
use libwebsock.Handshake.Key.{All-positive}
use libwebsock.Handshake.{
  Scan, comma, max_sub_protocols, is_supported, select, get_selected_subprotocol, append_protocols,
}

-- The first token that is one of the entries, if there is one.
abbrev pub IsFirst : List (List ℕ) → List (List ℕ) → Option (List ℕ) → Type 0
IsFirst entries toks none = All (λ tok. ¬ Memᴰ tok entries) toks
IsFirst entries toks (some tok) =
    (front : List (List ℕ)) × (back : List (List ℕ)) × (toks ≡ front ++ tok ∷ back)
    × All (λ t. ¬ Memᴰ t entries) front
    × Memᴰ tok entries

onto_front :
    (entries toks : List (List ℕ)) (t : List ℕ) (found : Option (List ℕ))
    → ¬ Memᴰ t entries
    → IsFirst entries toks found
    → IsFirst entries (t ∷ toks) found
onto_front entries toks t none other h = (other, h)
onto_front entries toks t (some tok) other (front, back, cut, before, here) =
    (t ∷ front, back, ap (λ l. t ∷ l) cut, (other, before), here)

module _ (supported : List (List ℕ)) where
  abbrev entries : List (List ℕ)
  entries = take max_sub_protocols supported

  Selects : List (List ℕ) → Type 0
  Selects ps =
      (found : Option (List ℕ)) × (select supported ps true ≡ ok found)
      × IsFirst entries (nonempty ps) found

  select_here :
      (b : ℕ) (bs : List ℕ) (more : List (List ℕ))
      → is_supported entries (b ∷ bs) ≡ true
      → Selects ((b ∷ bs) ∷ more)
  unfolding Selects select nonempty
  select_here b bs [] here =
      (some (b ∷ bs), rw here refl, ([], [], refl, tt, is_supported-Mem entries (b ∷ bs) here))
  select_here b bs (next ∷ more) here = (
    some (b ∷ bs),
    rw here refl,
    ([], nonempty (next ∷ more), refl, tt, is_supported-Mem entries (b ∷ bs) here),
  )

  select_on :
      (b : ℕ) (bs : List ℕ) (more : List (List ℕ))
      → is_supported entries (b ∷ bs) ≡ false
      → Selects more
      → Selects ((b ∷ bs) ∷ more)
  unfolding Selects select nonempty
  select_on b bs [] other ih = (none, rw other refl, (not_supported entries (b ∷ bs) other, tt))
  select_on b bs (next ∷ more) other (found, selected, first) = (
    found,
    rw (other, selected) refl,
    onto_front entries (nonempty (next ∷ more)) (b ∷ bs) found
        (not_supported entries (b ∷ bs) other) first,
  )

  select-IsFirst : (ps : List (List ℕ)) → Selects ps
  unfolding Selects select nonempty
  select-IsFirst [] = (none, refl, tt)
  select-IsFirst ([] ∷ []) = (none, refl, tt)
  select-IsFirst ([] ∷ next ∷ more) = select-IsFirst (next ∷ more)
  select-IsFirst ((b ∷ bs) ∷ more) = elim (Bool-cases (is_supported entries (b ∷ bs))) [
    | inl here ↦ select_here b bs more here
    | inr other ↦ select_on b bs more other (select-IsFirst more)
  ]

  -- Where no piece is supported, an array without NUL is left.
  select-fault :
      (p : List ℕ) (ps : List (List ℕ))
      → All (λ tok. ¬ Memᴰ tok entries) (nonempty (p ∷ ps))
      → select supported (p ∷ ps) false ≡ fault
  unfolding select nonempty
  select-fault p [] absent = refl
  select-fault [] (next ∷ more) absent = select-fault next more absent
  select-fault (b ∷ bs) (next ∷ more) (here, absent) =
      rw (supported_not entries (b ∷ bs) here) (select-fault next more absent)

-- Of the protocols in a string that the client asks for, in its order, the first is selected that
-- is one of the first eight that the server supports, and none if there is none.
pub get_selected_subprotocol-IsFirst :
    (supported : List (List ℕ)) (requested rest : List ℕ)
    → All (λ b. 0 < b) requested
    → (found : Option (List ℕ)) × (get_selected_subprotocol supported (requested ++ 0 ∷ rest)
        ≡ ok found)
      × IsFirst (take max_sub_protocols supported) (tokens comma requested) found
unfolding get_selected_subprotocol tokens Selects
get_selected_subprotocol-IsFirst supported requested rest all =
    let (found, selected, first) = select-IsFirst supported (segments comma requested) in
    (found, rw (pieces_of_string comma requested rest all) selected, first)

segments_some : (bs : List ℕ) → (p : List ℕ) × (ps : List (List ℕ)) × (segments comma bs ≡ p ∷ ps)
unfolding segments
segments_some [] = ([], [], refl)
segments_some (b ∷ bs) = elim (Bool-cases (comma b)) [
  | inl apart ↦ ([], segments comma bs, rw apart refl)
  | inr inside ↦ let (p, ps, cut) = segments_some bs in (b ∷ p, ps, rw (inside, cut) refl)
]

-- An array without NUL whose protocols are not supported is left.
array-fault :
    (supported : List (List ℕ)) (text : List ℕ)
    → All (λ b. 0 < b) text
    → All (λ tok. ¬ Memᴰ tok (take max_sub_protocols supported)) (tokens comma text)
    → get_selected_subprotocol supported text ≡ fault
unfolding get_selected_subprotocol tokens
array-fault supported text positive absent =
    let (p, ps, cut) = segments_some text in
    rw (pieces_of_array comma text positive, cut)
      (select-fault supported p ps (
        subst (λ l. All (λ tok. ¬ Memᴰ tok (take max_sub_protocols supported)) (nonempty l)) cut
          absent))

-- The protocols that were found so far, in a block of 1024 bytes.
pub record Holds (scan : Scan) (text : List ℕ) : Type 0 where
  pub block : scan.protocols ≡ text ++ replicate (1024 - length text) 0
  pub size : scan.len ≡ length text
  pub bytes : All (λ b. 0 < b) text

module _ (scan : Scan) (text value : List ℕ) (holds : Holds scan text) (some_text : 0 < length text)
    (positive : All (λ b. 0 < b) value) (exact : length text + length value ≡ 1023) where
  comma_written :
      write scan.protocols scan.len (44 ∷ [])
      ≡ ok ((text ++ 44 ∷ []) ++ drop 1 (replicate (1024 - length text) 0))
  comma_written =
      rw
        (
          holds.block,
          write_seam scan.len text (replicate (1024 - length text) 0) (44 ∷ []) holds.size
              (omega (arith, length-replicate {A = ℕ} (1024 - length text) 0)),
        )
        (ap (λ l. ok l)
          (sym (append_assoc text (44 ∷ []) (drop 1 (replicate (1024 - length text) 0)))))

  full_written :
      append_protocols scan value
      ≡ ok (record scan { protocols = (text ++ 44 ∷ []) ++ value; len = 1024 })
  unfolding append_protocols
  full_written =
      let zeros : List ℕ = replicate (1024 - length text) 0 in
      let size : length zeros ≡ 1024 - length text = length-replicate (1024 - length text) 0 in
      let free : length (drop 1 zeros) ≡ length value =
        omega (arith, size, length-drop 1 zeros, exact) in
      let front : scan.len + 1 ≡ length (text ++ 44 ∷ []) =
        omega (arith, holds.size, length-append {0} text (44 ∷ [])) in
      let last : scan.len + 1 + length value ≡ 1024 = omega (arith, holds.size, exact) in
      rw
        (
          le→ltb 1023 (scan.len + length value) (omega (arith, holds.size, exact)),
          lt→ltb 0 scan.len (omega (arith, holds.size, some_text)),
          comma_written,
          write_seam (scan.len + 1) (text ++ 44 ∷ []) (drop 1 zeros) value front
              (omega (arith, free)),
          drop_all (length value) (drop 1 zeros) (omega (arith, free)),
          append-nil value,
          last,
        )
        refl

  -- A further protocol header that brings the protocols to 1023 bytes, the new comma not counted,
  -- fills the array of 1024 bytes to its last: where none of the protocols in it is supported,
  -- `strtok` leaves the array.
  pub protocols-fault :
      (supported : List (List ℕ))
      → All
          (λ tok. ¬ Memᴰ tok (take max_sub_protocols supported))
          (tokens comma ((text ++ 44 ∷ []) ++ value))
      → (append_protocols scan value
          >>= (λ scan. get_selected_subprotocol supported scan.protocols))
        ≡ fault
  protocols-fault supported absent = rw full_written (
      array-fault supported ((text ++ 44 ∷ []) ++ value)
        (All-positive (text ++ 44 ∷ []) value
          (All-positive text (44 ∷ []) holds.bytes (omega arith)) positive)
        absent)
