-- ===== src/Logger/Lines.antt =====
-- Where a line of the log goes, and how long it is.
use libwebsock.Prelude.{
  ℕ, zero, suc, ◌+◌, ◌-◌, ◌*◌, ◌/◌, ◌%◌, ◌^◌, ◌≤◌, ◌<◌, ◌≡◌, ◌⊎◌, inl, inr, refl, true, false, List,
  [], ◌∷◌, ◌++◌, append_assoc, arith, All, ok, ltb, length, length-append, length-replicate,
  length-take, take, drop, replicate, Bool-cases, ◌==◌,
}
use libwebsock.Memory.{Allocator, byte_at}
use libwebsock.Memory.Blocks.{write_seam, c_string_lem}
use libwebsock.Logger.{
  LogLevel, error, info, debug, rank, Logger, strloglevel, decimal, pad_left, pad_right, Moment,
  Destination, terminal, file, line_of, destination_of, write_log,
}

decimal-bound : (digits n : ℕ) → length (decimal digits n) ≤ digits
unfolding decimal
decimal-bound zero n = omega arith
decimal-bound (suc digits) n = elim (Bool-cases (ltb n 10)) [
  | inl last ↦ rw last (omega arith)
  | inr more ↦ rw more (
      omega (
        arith,
        decimal-bound digits (n / 10),
        length-append (decimal digits (n / 10)) ((48 + n % 10) ∷ []),
      ))
]

strloglevel-bound : (level : LogLevel) → length (strloglevel level) ≤ 5
strloglevel-bound error = omega arith
strloglevel-bound info = omega arith
strloglevel-bound debug = omega arith

line_of-bound :
    (now : Moment) (level : LogLevel) (function text : List ℕ)
    → length (line_of now level function text)
      ≤ length now.time + length function + length text + 21
unfolding line_of
line_of-bound now level function text =
    let pid = decimal 10 now.pid in
    let shown = pad_left 6 pid in
    let name = pad_right 5 (strloglevel level) in
    omega (
      arith,
      decimal-bound 10 now.pid,
      strloglevel-bound level,
      length-append now.time
          (32 ∷ (shown ++ 32 ∷ (name ++ 32 ∷ (function ++ 58 ∷ 32 ∷ (text ++ 10 ∷ []))))),
      length-append shown (32 ∷ (name ++ 32 ∷ (function ++ 58 ∷ 32 ∷ (text ++ 10 ∷ [])))),
      length-append {0} (replicate (6 - length pid) 32) pid,
      length-replicate {A = ℕ} (6 - length pid) 32,
      length-append name (32 ∷ (function ++ 58 ∷ 32 ∷ (text ++ 10 ∷ []))),
      length-append (strloglevel level) (replicate (5 - length (strloglevel level)) 32),
      length-replicate {A = ℕ} (5 - length (strloglevel level)) 32,
      length-append function (58 ∷ 32 ∷ (text ++ 10 ∷ [])),
      length-append text (10 ∷ []),
    )

positive-take : (n : ℕ) (text : List ℕ) → All (λ b. 0 < b) text → All (λ b. 0 < b) (take n text)
positive-take zero text positive = tt
positive-take (suc n) [] positive = tt
positive-take (suc n) (b ∷ text) (here, others) = (here, positive-take n text others)

-- Where a line goes: to the file with the name, if there is one and it opens.
abbrev pub GoesTo : List ℕ → Moment → Destination → Type 0
GoesTo name now (file opened) = (opened ≡ name) × (0 < length name) × (now.opens ≡ true)
GoesTo name now terminal = (name ≡ []) ⊎ (now.opens ≡ false)

goes_to :
    (logger : Logger) (now : Moment) (name rest : List ℕ)
    → logger.filename ≡ name ++ 0 ∷ rest
    → All (λ b. 0 < b) name
    → (to : Destination) × (destination_of logger now ≡ ok to) × GoesTo name now to
unfolding destination_of byte_at
goes_to logger now [] rest named positive =
    (terminal, rw (named, c_string_lem [] rest tt) refl, inl refl)
goes_to logger now (c ∷ cs) rest named positive = elim (Bool-cases now.opens) [
  | inl opens ↦ (
    file (c ∷ cs),
    rw (named, c_string_lem (c ∷ cs) rest positive, some_name, opens) refl,
    (refl, omega arith, opens),
  )
  | inr shut ↦
      (terminal, rw (named, c_string_lem (c ∷ cs) rest positive, some_name, shut) refl, inr shut)
]
  where
    some_name : (c == 0) ≡ false
    some_name = ground (arith, positive.0)

-- The names of the levels, in five bytes.
abbrev pub level_name : LogLevel → List ℕ
level_name error = 69 ∷ 82 ∷ 82 ∷ 79 ∷ 82 ∷ []
level_name info = 73 ∷ 78 ∷ 70 ∷ 79 ∷ 32 ∷ []
level_name debug = 68 ∷ 69 ∷ 66 ∷ 85 ∷ 71 ∷ []

level_name-pad_right : (level : LogLevel) → pad_right 5 (strloglevel level) ≡ level_name level
level_name-pad_right error = refl
level_name-pad_right info = refl
level_name-pad_right debug = refl

-- The number that decimal digits stand for, behind those that came to `n`.
abbrev pub number : ℕ → List ℕ → ℕ
number n [] = n
number n (d ∷ ds) = number (n * 10 + (d - 48)) ds

abbrev pub IsDigit : ℕ → Type 0
IsDigit d = (48 ≤ d) × (d < 58)

number-append : (n d : ℕ) (ds : List ℕ) → number n (ds ++ d ∷ []) ≡ number n ds * 10 + (d - 48)
number-append n d [] = refl
number-append n d (c ∷ ds) = number-append (n * 10 + (c - 48)) d ds

All-IsDigit : (ds es : List ℕ) → All IsDigit ds → All IsDigit es → All IsDigit (ds ++ es)
All-IsDigit [] es h k = k
All-IsDigit (d ∷ ds) es h k = (h.0, All-IsDigit ds es h.1 k)

decimal-number :
    (digits n : ℕ)
    → n < 10 ^ digits
    → (number 0 (decimal digits n) ≡ n) × All IsDigit (decimal digits n)
unfolding decimal
decimal-number zero n h = (omega arith, tt)
decimal-number (suc digits) n h = elim (Bool-cases (ltb n 10)) [
  | inl last ↦
      rw last (let small : n < 10 = ground arith in (omega arith, ((omega arith, omega arith), tt)))
  | inr more ↦
      let (value, all) = decimal-number digits (n / 10) (omega arith) in
      let ds = decimal digits (n / 10) in
      rw more (
        omega (arith, value, number-append 0 (48 + n % 10) ds),
        All-IsDigit ds ((48 + n % 10) ∷ []) all ((omega arith, omega arith), tt),
      )
]

-- A process in a field of at least six bytes: blanks, and digits that say it.
abbrev pub IsPidField : ℕ → List ℕ → Type 0
IsPidField pid field =
    (digits : List ℕ) × (field ≡ replicate (6 - length digits) 32 ++ digits)
    × All IsDigit digits
    × (number 0 digits ≡ pid)

-- A message without NUL is written exactly where its level is not above the logger's, in a process
-- of less than 10^10: then one line goes to the named file, or to the terminal where the name is
-- empty or no file opens. The line is the time, the process in decimal digits behind blanks that
-- bring it to six bytes, the name of the level in five bytes, the function's name with a colon, the
-- first 2047 bytes of the message, and a newline, with a blank between each two of the first five.
-- However long the message is, the line has at most 2068 bytes more than the time and the
-- function's name.
pub write_log_lem :
    (mem : Allocator) (logger : Logger) (level : LogLevel) (function text : List ℕ) (now : Moment)
    (name rest : List ℕ)
    → All (λ b. 0 < b) text
    → logger.filename ≡ name ++ 0 ∷ rest
    → All (λ b. 0 < b) name
    → now.pid < 10 ^ 10
    → ((rank logger.level < rank level) × (write_log mem logger level function text now ≡ ok []))
      ⊎ ((rank level ≤ rank logger.level)
          × (to : Destination) × GoesTo name now to
          × (field : List ℕ) × IsPidField now.pid field
          × (line : List ℕ) × (line
              ≡ now.time
                ++ 32
                  ∷ (field
                      ++ 32
                        ∷ (level_name level
                            ++ 32 ∷ (function ++ 58 ∷ 32 ∷ (take 2047 text ++ 10 ∷ [])))))
          × (write_log mem logger level function text now ≡ ok ((to, line) ∷ []))
          × (length line ≤ length now.time + length function + 2068))
unfolding write_log
write_log_lem mem logger level function text now name rest positive named name_positive few =
    elim (Bool-cases (ltb (rank logger.level) (rank level))) [
      | inl above ↦ inl (ground (arith, above), rw above refl)
      | inr within ↦
          let (to, there, goes) = goes_to logger now name rest named name_positive in
          let (value, all) = decimal-number 10 now.pid few in
          inr (
            ground (arith, within),
            to,
            goes,
            pad_left 6 (decimal 10 now.pid),
            (decimal 10 now.pid, refl, all, value),
            line_of now level function (take 2047 text),
            rw (← level_name-pad_right level) (unfold line_of in refl),
            rw
                (
                  within,
                  write_seam 0 [] (mem.garbage 2049) (take 2047 text ++ 0 ∷ []) refl (
                      omega (
                        arith,
                        length-append (take 2047 text) (0 ∷ []),
                        length-take 2047 text,
                        mem.length-garbage 2049,
                      )),
                  append_assoc (take 2047 text) (0 ∷ [])
                      (drop (length (take 2047 text ++ 0 ∷ [])) (mem.garbage 2049)),
                  c_string_lem (take 2047 text)
                      (drop (length (take 2047 text ++ 0 ∷ [])) (mem.garbage 2049))
                      (positive-take 2047 text positive),
                  there,
                )
                refl,
            omega (arith, line_of-bound now level function (take 2047 text), length-take 2047 text),
          )
    ]
