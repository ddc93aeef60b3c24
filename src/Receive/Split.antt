-- ===== src/Receive/Split.antt =====
-- How the network cuts the bytes into calls makes no difference: a step that runs out of bytes
-- inside a payload, and goes on with those of the next call.
use mathlib.Core.Path.{ap₂}
use libwebsock.Prelude.{
  ℕ, zero, suc, ◌+◌, ◌-◌, ◌≤◌, ◌<◌, ◌≡◌, ◌⊎◌, refl, ◌∙◌, ap, sym, true, false, List, [], ◌∷◌, ◌++◌,
  arith, length, length-append, take, drop, drop-length, Outcome, ok, ◌>>=◌, >>=-assoc, >>=-cong,
  bind_under, ltb, leb, ltb→lt, leb→le, le→leb, lt→leb, lt→ltb, le→ltb, if◌then◌else◌, ℤ,
  Bool-cases, inl, inr, is_minus_one, access, get_elem?, bit_or,
}
use libwebsock.Memory.{Allocator, write, byte_at}
use libwebsock.Memory.Blocks.{write-append, drop_all}
use libwebsock.Types.{ClientState, Callbacks, Frame, Reply}
use libwebsock.DefaultCallbacks.Pings.{at_frame}
use libwebsock.Receive.{
  FrameFn, frame_fn, frame_lookup_table, Progress, again, broken, is_loaded, set_needs_more,
  complete, copy_payload, header_read, store_byte, receive_step, receive_loop,
}
use libwebsock.Receive.Loop.{go_on}

-- The part of `n` bytes of an append that lies in the second list.
take-append {ℓ} :
    {A : Type ℓ} (n : ℕ) (xs ys : List A)
    → length xs ≤ n
    → take n (xs ++ ys) ≡ xs ++ take (n - length xs) ys
take-append n [] ys h = ap (λ k. take k ys) (omega arith)
take-append zero (x ∷ xs) ys h = absurd (omega arith)
take-append (suc n) (x ∷ xs) ys h =
    let e : suc n - suc (length xs) ≡ n - length xs = omega arith in
    rw (take-append n xs ys (omega arith), e)

drop-append {ℓ} :
    {A : Type ℓ} (n : ℕ) (xs ys : List A)
    → length xs ≤ n
    → drop n (xs ++ ys) ≡ drop (n - length xs) ys
drop-append n [] ys h = ap (λ k. drop k ys) (omega arith)
drop-append zero (x ∷ xs) ys h = absurd (omega arith)
drop-append (suc n) (x ∷ xs) ys h =
    let e : suc n - suc (length xs) ≡ n - length xs = omega arith in
    rw (drop-append n xs ys (omega arith), e)

take-append_short {ℓ} :
    {A : Type ℓ} (n : ℕ) (xs ys : List A) → n ≤ length xs → take n (xs ++ ys) ≡ take n xs
take-append_short zero xs ys h = refl
take-append_short (suc n) [] ys h = absurd (omega arith)
take-append_short (suc n) (x ∷ xs) ys h = rw (take-append_short n xs ys (omega arith))

module _ (mem : Allocator) (cb : Callbacks) where
  -- The loop passes over the bytes that `memcpy` took.
  pub loop-drop :
      (skip : ℕ) (s : ClientState) (bs : List ℕ) (r : ℤ)
      → receive_loop mem cb skip s bs r ≡ receive_loop mem cb 0 s (drop skip bs) r
  unfolding receive_loop
  loop-drop zero s bs r = refl
  loop-drop (suc skip) s [] r = refl
  loop-drop (suc skip) s (b ∷ bs) r = loop-drop skip s bs r

  -- A complete frame, and the loop behind it.
  abbrev finish : ClientState → Frame → List Frame → List ℕ → Reply
  finish s f earlier rest = complete mem cb s f earlier 0 >>= go_on mem cb rest

  abbrev answer : ℕ → ClientState × ℤ → Outcome Progress
  answer skip called =
      if is_minus_one called.1
      then ok (broken called.0 called.1)
      else ok (again called.0 skip called.1)

  answer-skip :
      (skip : ℕ) (bs : List ℕ) (called : ClientState × ℤ)
      → (answer skip called >>= go_on mem cb bs) ≡ (answer 0 called >>= go_on mem cb (drop skip bs))
  answer-skip skip bs called = elim (Bool-cases (is_minus_one called.1)) [
    | inl ends ↦ rw ends
    | inr goes ↦ rw goes (loop-drop skip called.0 bs called.1)
  ]

  complete-finish :
      (s : ClientState) (f : Frame) (earlier : List Frame) (skip : ℕ) (bs : List ℕ)
      → (complete mem cb s f earlier skip >>= go_on mem cb bs) ≡ finish s f earlier (drop skip bs)
  unfolding complete
  complete-finish s f earlier skip bs =
      let call = λ (fn : FrameFn). frame_fn mem cb fn (at_frame s f earlier) in
      let found = λ (b : ℕ).
        access (
          get_elem? frame_lookup_table
            (bit_or (if s.flags.receiving_fragment then 256 else 0) b)) in
      let go = go_on mem cb bs in
      let go' = go_on mem cb (drop skip bs) in
      bind_under (byte_at f.rawdata 0) (λ b. found b >>= (λ fn. call fn >>= answer skip))
        (λ b. found b >>= (λ fn. call fn >>= answer 0)) go go'
        (λ b.
          bind_under (found b) (λ fn. call fn >>= answer skip) (λ fn. call fn >>= answer 0) go go'
            (λ fn. bind_under (call fn) (answer skip) (answer 0) go go' (answer-skip skip bs)))

  -- The payload is all there.
  copy_payload-all :
      (s : ClientState) (f : Frame) (earlier : List Frame) (xs bs : List ℕ) (r : ℤ)
      → f.rawdata_idx < f.size
      → f.size - f.rawdata_idx ≤ length xs
      → (copy_payload mem cb s f earlier xs r >>= go_on mem cb bs) ≡ (
          write f.rawdata f.rawdata_idx (take (f.size - f.rawdata_idx) xs) >>= (λ block.
            finish s
              (record f { rawdata = block; rawdata_idx = f.size })
              earlier
              (drop (f.size - f.rawdata_idx) bs)))
  unfolding copy_payload
  copy_payload-all s f earlier xs bs r more there =
      rw (lt→ltb f.rawdata_idx f.size more, le→leb (f.size - f.rawdata_idx) (length xs) there)
        (>>=-assoc (write f.rawdata f.rawdata_idx (take (f.size - f.rawdata_idx) xs)) _ _
          ∙ >>=-cong _ _ _ (λ block.
            complete-finish s (record f { rawdata = block; rawdata_idx = f.size }) earlier
              (f.size - f.rawdata_idx) bs))

  -- The state in the middle of a payload.
  abbrev pending : ClientState → Frame → List Frame → List ℕ → ℕ → ClientState
  pending s f earlier block n = set_needs_more true (record s {
    current_frame = record f { rawdata = block; rawdata_idx = f.rawdata_idx + n } ∷ earlier;
  })

  -- The payload is not all there.
  copy_payload-part :
      (s : ClientState) (f : Frame) (earlier : List Frame) (xs bs : List ℕ) (r : ℤ)
      → length xs < f.size - f.rawdata_idx
      → (copy_payload mem cb s f earlier xs r >>= go_on mem cb bs) ≡ (
          write f.rawdata f.rawdata_idx xs >>= (λ block.
            receive_loop mem cb 0 (pending s f earlier block (length xs)) (drop (length xs) bs) r))
  unfolding copy_payload
  copy_payload-part s f earlier xs bs r less =
      rw
        (
          lt→ltb f.rawdata_idx f.size (omega arith),
          lt→leb (f.size - f.rawdata_idx) (length xs) less,
        )
        (>>=-assoc (write f.rawdata f.rawdata_idx xs) _ _
          ∙ >>=-cong _ _ _
              (λ block. loop-drop (length xs) (pending s f earlier block (length xs)) bs r))

  -- The next byte of a payload, in a later iteration.
  loop_loaded_byte :
      (s : ClientState) (f : Frame) (earlier : List Frame) (b : ℕ) (bs : List ℕ) (r : ℤ)
      → s.flags.processing_error ≡ false
      → is_loaded f.state ≡ true
      → receive_loop mem cb 0 (at_frame s f earlier) (b ∷ bs) r ≡ (
          write f.rawdata f.rawdata_idx (b ∷ []) >>= (λ block.
            copy_payload mem cb
              (set_needs_more false (at_frame s f earlier))
              (record f { rawdata = block; rawdata_idx = f.rawdata_idx + 1 })
              earlier
              bs
              r
            >>= go_on mem cb bs))
  unfolding receive_loop receive_step store_byte header_read
  loop_loaded_byte s f earlier b bs r running loaded =
      rw (running, loaded) (>>=-assoc (write f.rawdata f.rawdata_idx (b ∷ [])) _ _)

  -- Everything was there before.
  copy_payload-none :
      (s : ClientState) (f : Frame) (earlier : List Frame) (xs bs : List ℕ) (r : ℤ)
      → f.size ≤ f.rawdata_idx
      → (copy_payload mem cb s f earlier xs r >>= go_on mem cb bs) ≡ finish s f earlier bs
  unfolding copy_payload
  copy_payload-none s f earlier xs bs r less = rw (le→ltb f.rawdata_idx f.size less)

  copy_payload-frame :
      (s : ClientState) (g f : Frame) (earlier : List Frame) (bs : List ℕ) (r : ℤ)
      → copy_payload mem cb (at_frame s g earlier) f earlier bs r
        ≡ copy_payload mem cb s f earlier bs r
  unfolding copy_payload complete
  copy_payload-frame s g f earlier bs r = refl

  write-three :
      (block : List ℕ) (at c : ℕ) (xs ys : List ℕ) (k : List ℕ → Reply)
      → (write block at (xs ++ c ∷ ys) >>= k) ≡ (
          write block at xs >>= (λ b1.
            write b1 (at + length xs) (c ∷ []) >>= (λ b2. write b2 (at + length xs + 1) ys >>= k)))
  write-three block at c xs ys k =
      ap (λ (o : Outcome (List ℕ)). o >>= k) (write-append block at xs (c ∷ ys))
      ∙ >>=-assoc (write block at xs) (λ b1. write b1 (at + length xs) (c ∷ ys)) k
      ∙ >>=-cong (write block at xs) _ _ (λ b1.
        ap (λ (o : Outcome (List ℕ)). o >>= k) (write-append b1 (at + length xs) (c ∷ []) ys)
        ∙ >>=-assoc (write b1 (at + length xs) (c ∷ [])) (λ b2. write b2 (at + length xs + 1) ys) k)

  module _ (s0 : ClientState) (f : Frame) (earlier : List Frame) (c : ℕ) (xs ys : List ℕ) (r : ℤ)
      (running : s0.flags.processing_error ≡ false) (loaded : is_loaded f.state ≡ true) where
    abbrev here : ClientState
    here = set_needs_more false s0

    abbrev at_byte : List ℕ → Frame
    at_byte block = record f { rawdata = block; rawdata_idx = f.rawdata_idx + length xs + 1 }

    -- The first bytes of the payload, the byte that begins the next call, and what is behind it.
    resumed :
        length xs < f.size - f.rawdata_idx
        → (copy_payload mem cb here f earlier xs r >>= go_on mem cb (xs ++ c ∷ ys)) ≡ (
            write f.rawdata f.rawdata_idx xs >>= (λ b1.
              write b1 (f.rawdata_idx + length xs) (c ∷ [])
              >>= (λ b2. copy_payload mem cb here (at_byte b2) earlier ys r >>= go_on mem cb ys)))
    resumed less =
        copy_payload-part here f earlier xs (xs ++ c ∷ ys) r less
        ∙ >>=-cong (write f.rawdata f.rawdata_idx xs) _ _ (λ b1.
          ap (λ bs. receive_loop mem cb 0 (pending here f earlier b1 (length xs)) bs r)
            (drop-length xs (c ∷ ys))
          ∙ loop_loaded_byte (set_needs_more true here)
              (record f { rawdata = b1; rawdata_idx = f.rawdata_idx + length xs }) earlier c ys r
              running loaded
          ∙ >>=-cong (write b1 (f.rawdata_idx + length xs) (c ∷ [])) _ _ (λ b2.
            ap (λ (o : Outcome Progress). o >>= go_on mem cb ys)
              (copy_payload-frame here
                (record f { rawdata = b1; rawdata_idx = f.rawdata_idx + length xs }) (at_byte b2)
                earlier ys r)))

    abbrev all : List ℕ
    all = xs ++ c ∷ ys

    length-all : length all ≡ length xs + 1 + length ys
    length-all = omega (arith, length-append xs (c ∷ ys))

    -- What is left to do with the bytes behind the one that begins the next call.
    abbrev resume : List ℕ → Reply
    resume b2 = copy_payload mem cb here (at_byte b2) earlier ys r >>= go_on mem cb ys

    abbrev in_parts : Reply
    in_parts =
        write f.rawdata f.rawdata_idx xs
        >>= (λ b1. write b1 (f.rawdata_idx + length xs) (c ∷ []) >>= resume)

    -- The payload ends in the next call, behind its first byte or with it, or does not end in it.
    whole_within :
        length xs + 1 < f.size - f.rawdata_idx
        → f.size - f.rawdata_idx ≤ length all
        → (copy_payload mem cb here f earlier all r >>= go_on mem cb all) ≡ in_parts
    whole_within more there =
        let need = f.size - f.rawdata_idx in
        let left = need - length xs - 1 in
        let e : need - length xs ≡ suc left = omega arith in
        let e' : f.size - (f.rawdata_idx + length xs + 1) ≡ left = omega arith in
        copy_payload-all here f earlier all all r (omega arith) there
        ∙ rw
            (
              take-append need xs (c ∷ ys) (omega arith),
              drop-append need xs (c ∷ ys) (omega arith),
              e,
            )
            (write-three f.rawdata f.rawdata_idx c xs (take left ys) (λ block.
                finish here (record f { rawdata = block; rawdata_idx = f.size }) earlier
                  (drop left ys))
              ∙ >>=-cong (write f.rawdata f.rawdata_idx xs) _ _ (λ b1.
                >>=-cong (write b1 (f.rawdata_idx + length xs) (c ∷ [])) _ _ (λ b2.
                  ap
                    (λ n. write b2 (f.rawdata_idx + length xs + 1) (take n ys) >>= (λ block.
                      finish here (record f { rawdata = block; rawdata_idx = f.size }) earlier
                        (drop n ys)))
                    (sym e')
                  ∙ sym (
                      copy_payload-all here (at_byte b2) earlier ys ys r (omega arith)
                        (omega (arith, length-all))))))

    whole_at_byte :
        f.size - f.rawdata_idx ≡ length xs + 1
        → (copy_payload mem cb here f earlier all r >>= go_on mem cb all) ≡ in_parts
    whole_at_byte exact =
        let need = f.size - f.rawdata_idx in
        let e : need - length xs ≡ 1 = omega arith in
        let e' : f.size ≡ f.rawdata_idx + length xs + 1 = omega arith in
        copy_payload-all here f earlier all all r (omega arith) (omega (arith, length-all))
        ∙ rw
            (
              take-append need xs (c ∷ ys) (omega arith),
              drop-append need xs (c ∷ ys) (omega arith),
              e,
            )
            (ap
                (λ (o : Outcome (List ℕ)). o >>= (λ block.
                  finish here (record f { rawdata = block; rawdata_idx = f.size }) earlier ys))
                (write-append f.rawdata f.rawdata_idx xs (c ∷ []))
              ∙ >>=-assoc (write f.rawdata f.rawdata_idx xs) _ _
              ∙ >>=-cong (write f.rawdata f.rawdata_idx xs) _ _ (λ b1.
                >>=-cong (write b1 (f.rawdata_idx + length xs) (c ∷ [])) _ _ (λ b2.
                  ap (λ n. finish here (record f { rawdata = b2; rawdata_idx = n }) earlier ys) e'
                  ∙ sym (copy_payload-none here (at_byte b2) earlier ys ys r (omega arith)))))

    still_open :
        length all < f.size - f.rawdata_idx
        → (copy_payload mem cb here f earlier all r >>= go_on mem cb all) ≡ in_parts
    still_open less =
        let e : f.rawdata_idx + length all ≡ f.rawdata_idx + length xs + 1 + length ys =
          omega (arith, length-all) in
        copy_payload-part here f earlier all all r less
        ∙ write-three f.rawdata f.rawdata_idx c xs ys (λ block.
          receive_loop mem cb 0 (pending here f earlier block (length all)) (drop (length all) all)
            r)
        ∙ >>=-cong (write f.rawdata f.rawdata_idx xs) _ _ (λ b1.
          >>=-cong (write b1 (f.rawdata_idx + length xs) (c ∷ [])) _ _ (λ b2.
            >>=-cong (write b2 (f.rawdata_idx + length xs + 1) ys) _ _ (λ block.
              ap₂
                (λ n bs.
                  receive_loop mem cb 0
                    (set_needs_more true (record here {
                      current_frame = record f { rawdata = block; rawdata_idx = n } ∷ earlier;
                    }))
                    bs r)
                e
                (drop_all (length all) all (omega arith)
                  ∙ sym (drop_all (length ys) ys (omega arith))))
            ∙ sym
                (copy_payload-part here (at_byte b2) earlier ys ys r (omega (arith, length-all)))))

    -- A step on the bytes of one call does the same as on those of both calls.
    pub copy_payload-more :
        (copy_payload mem cb here f earlier all r >>= go_on mem cb all)
        ≡ (copy_payload mem cb here f earlier xs r >>= go_on mem cb all)
    copy_payload-more = elim (compare-cases (length xs) (f.size - f.rawdata_idx)) [
      | inl there ↦ within there
      | inr less ↦ elim (Bool-cases (leb (f.size - f.rawdata_idx) (length all))) [
        | inr over ↦ still_open (ground (arith, over)) ∙ sym (resumed less)
        | inl fits ↦ elim (Bool-cases (ltb (length xs + 1) (f.size - f.rawdata_idx))) [
          | inl more ↦ whole_within (ltb→lt _ _ more) (leb→le _ _ fits) ∙ sym (resumed less)
          | inr ends ↦ whole_at_byte (ground (arith, ends)) ∙ sym (resumed less)
        ]
      ]
    ]
      where
        compare-cases : (m n : ℕ) → (n ≤ m) ⊎ (m < n)
        compare-cases m n = ground arith

        within :
            f.size - f.rawdata_idx ≤ length xs
            → (copy_payload mem cb here f earlier all r >>= go_on mem cb all)
              ≡ (copy_payload mem cb here f earlier xs r >>= go_on mem cb all)
        within there = elim (Bool-cases (ltb f.rawdata_idx f.size)) [
          | inl more ↦
              let more' = ltb→lt f.rawdata_idx f.size more in
              copy_payload-all here f earlier all all r more' (omega (arith, length-all))
              ∙ ap
                  (λ bs. write f.rawdata f.rawdata_idx bs >>= (λ block.
                    finish here (record f { rawdata = block; rawdata_idx = f.size }) earlier
                      (drop (f.size - f.rawdata_idx) all)))
                  (take-append_short (f.size - f.rawdata_idx) xs (c ∷ ys) there)
              ∙ sym (copy_payload-all here f earlier xs all r more' there)
          | inr none_left ↦
              let none' : f.size ≤ f.rawdata_idx = ground (arith, none_left) in
              copy_payload-none here f earlier all all r none'
              ∙ sym (copy_payload-none here f earlier xs all r none')
        ]
