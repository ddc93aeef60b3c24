-- ===== src/Header/Loaded.antt =====
-- A header that is read leaves its frame loaded.
use libwebsock.Prelude.{
  ◌+◌, ◌≡◌, refl, Bool, true, false, Yields, >>=-Yields, Bool-cases, inl, inr, ltb, ◌==◌,
}
use libwebsock.Memory.{Allocator, byte_at, lws_realloc}
use libwebsock.Types.{
  Frame, FrameState, sw_start, sw_got_two, sw_got_short_len, sw_got_full_len, sw_loaded_mask,
}
use libwebsock.Header.{
  grow, got_full_len, got_short_len, got_two, read_header, size_of_int, round_up,
}

abbrev pub IsLoaded : FrameState → Type 0
IsLoaded sw_loaded_mask = Unit
IsLoaded _ = ⊥

-- The header is read only if the frame is loaded.
abbrev pub LoadedIfRead : Frame × Bool → Type 0
LoadedIfRead (f, true) = IsLoaded f.state
LoadedIfRead (f, false) = Unit

module _ (mem : Allocator) where
  grow-LoadedIfRead : (f : Frame) → IsLoaded f.state → Yields LoadedIfRead (grow mem f)
  unfolding grow
  grow-LoadedIfRead f loaded = elim (Bool-cases (ltb f.rawdata_sz f.size)) [
    | inl more ↦ rw more (
        >>=-Yields LoadedIfRead (lws_realloc mem f.rawdata (size_of_int (round_up f.size))) _
          (λ block. loaded))
    | inr fits ↦ rw fits loaded
  ]

  got_full_len-LoadedIfRead : (f : Frame) → Yields LoadedIfRead (got_full_len mem f)
  unfolding got_full_len
  got_full_len-LoadedIfRead f = elim (Bool-cases (ltb f.rawdata_idx f.payload_offset)) [
    | inl less ↦ rw less tt
    | inr there ↦ rw there (
        >>=-Yields LoadedIfRead (byte_at f.rawdata f.mask_offset) _ (λ a.
          >>=-Yields LoadedIfRead (byte_at f.rawdata (f.mask_offset + 1)) _ (λ b.
            >>=-Yields LoadedIfRead (byte_at f.rawdata (f.mask_offset + 2)) _ (λ c.
              >>=-Yields LoadedIfRead (byte_at f.rawdata (f.mask_offset + 3)) _
                (λ d. grow-LoadedIfRead _ tt)))))
  ]

  got_short_len-LoadedIfRead : (f : Frame) → Yields LoadedIfRead (got_short_len mem f)
  unfolding got_short_len
  got_short_len-LoadedIfRead f = elim (Bool-cases (f.payload_len_short == 126)) [
    | inl medium ↦ rw medium (elim (Bool-cases (ltb f.rawdata_idx 4)) [
      | inl less ↦ rw less tt
      | inr there ↦ rw there (
          >>=-Yields LoadedIfRead (byte_at f.rawdata 2) _ (λ a.
            >>=-Yields LoadedIfRead (byte_at f.rawdata 3) _ (λ b. got_full_len-LoadedIfRead _)))
    ])
    | inr other ↦ rw other (elim (Bool-cases (f.payload_len_short == 127)) [
      | inl long ↦ rw long (elim (Bool-cases (ltb f.rawdata_idx 10)) [
        | inl less ↦ rw less tt
        | inr there ↦ rw there (
            >>=-Yields LoadedIfRead (byte_at f.rawdata 6) _ (λ a.
              >>=-Yields LoadedIfRead (byte_at f.rawdata 7) _ (λ b.
                >>=-Yields LoadedIfRead (byte_at f.rawdata 8) _ (λ c.
                  >>=-Yields LoadedIfRead (byte_at f.rawdata 9) _
                    (λ d. got_full_len-LoadedIfRead _)))))
      ])
      | inr short ↦ rw short (got_full_len-LoadedIfRead _)
    ])
  ]

  got_two-LoadedIfRead : (f : Frame) → Yields LoadedIfRead (got_two mem f)
  unfolding got_two
  got_two-LoadedIfRead f =
      >>=-Yields LoadedIfRead (byte_at f.rawdata 0) _
        (λ a. >>=-Yields LoadedIfRead (byte_at f.rawdata 1) _ (λ b. got_short_len-LoadedIfRead _))

  -- `read_header` by the state that it starts in.
  read_from : (st : FrameState) (f : Frame) → f.state ≡ st → Yields LoadedIfRead (read_header mem f)
  unfolding read_header
  read_from sw_start f e = rw e (elim (Bool-cases (ltb f.rawdata_idx 2)) [
    | inl less ↦ rw less tt
    | inr there ↦ rw there (got_two-LoadedIfRead _)
  ])
  read_from sw_got_two f e = rw e (got_two-LoadedIfRead _)
  read_from sw_got_short_len f e = rw e (got_short_len-LoadedIfRead _)
  read_from sw_got_full_len f e = rw e (got_full_len-LoadedIfRead _)
  read_from sw_loaded_mask f e = rw e tt

  pub read_header-LoadedIfRead : (f : Frame) → Yields LoadedIfRead (read_header mem f)
  read_header-LoadedIfRead f = read_from f.state f refl
