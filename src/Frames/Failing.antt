-- ===== src/Frames/Failing.antt =====
-- What `libwebsock_error` of src/websock.c comes to, written out.
use libwebsock.Prelude.{ℕ, ◌≡◌, refl, ◌∙◌, ap, ℤ, true, [], Option, none, some, ok, pos, ◌>>=◌}
use libwebsock.Types.{ClientState, Callbacks, Reply}
use libwebsock.Frames.{error}

-- The client that `onerror` gets is marked as failed.
abbrev pub marked : ClientState → ClientState
marked s = record s { flags = record s.flags { processing_error = true } }

-- `onerror`, if there is one, is called with the code, and then the frames are gone.
abbrev pub failed_with : Option (ClientState → ℕ → Reply) → ClientState → ℕ → Reply
failed_with none s code = ok (record (marked s) { current_frame = [] }, pos 0)
failed_with (some onerror) s code =
    onerror (marked s) code >>= (λ called. ok (record called.0 { current_frame = [] }, called.1))

pub error-failed_with :
    (cb : Callbacks) (s : ClientState) (code : ℕ) → error cb s code ≡ failed_with cb.onerror s code
unfolding error
error-failed_with cb s code = ap (λ o. o >>= close) (same cb.onerror) ∙ at cb.onerror
  where
    close : ClientState × ℤ → Reply
    close called = ok (record called.0 { current_frame = [] }, called.1)

    told : Option (ClientState → ℕ → Reply) → Reply
    told none = ok (marked s, pos 0)
    told (some onerror) = onerror (marked s) code

    at :
        (onerror : Option (ClientState → ℕ → Reply))
        → ((told onerror) >>= close) ≡ failed_with onerror s code
    at none = refl
    at (some f) = refl

    same :
        (onerror : Option (ClientState → ℕ → Reply))
        → (elim onerror [ none ↦ ok (marked s, pos 0) | some f ↦ f (marked s) code ]) ≡ told onerror
    same none = refl
    same (some f) = refl
