-- ===== src/Tests/Logging.antt =====
-- The log, at a concrete call.
use libwebsock.Prelude.{
  ℕ, ◌+◌, ◌≤◌, ◌<◌, ◌≡◌, ◌⊎◌, refl, true, List, [], ◌∷◌, ◌++◌, arith, ok, length,
}
use libwebsock.Logger.{rank, Logger, info, debug, Moment, Destination, write_log}
use libwebsock.Logger.Lines.{GoesTo, IsPidField, write_log_lem}
use libwebsock.Tests.Data.{ample}

-- "l", the name of the file.
abbrev to_file : Logger
to_file = record { filename = 108 ∷ 0 ∷ 0 ∷ []; level = debug }

abbrev noon : Moment
noon = record { time = 49 ∷ 50 ∷ []; pid = 4711; opens = true }

-- "hi" from "f".
write_log_lem_example :
    ((rank debug < rank info)
      × (write_log ample to_file info (102 ∷ []) (104 ∷ 105 ∷ []) noon ≡ ok []))
    ⊎ ((rank info ≤ rank debug)
        × (to : Destination) × GoesTo (108 ∷ []) noon to
        × (field : List ℕ) × IsPidField 4711 field
        × (line : List ℕ) × (line
            ≡ 49
              ∷ 50
              ∷ 32
              ∷ (field ++ 32 ∷ 73 ∷ 78 ∷ 70 ∷ 79 ∷ 32 ∷ 32 ∷ 102 ∷ 58 ∷ 32 ∷ 104 ∷ 105 ∷ 10 ∷ []))
        × (write_log ample to_file info (102 ∷ []) (104 ∷ 105 ∷ []) noon ≡ ok ((to, line) ∷ []))
        × (length line ≤ 2 + 1 + 2068))
write_log_lem_example =
    write_log_lem ample to_file info (102 ∷ []) (104 ∷ 105 ∷ []) noon (108 ∷ []) (0 ∷ [])
      (omega arith) refl (omega arith) (omega arith)
