-- ===== src/Wire/RoundTrip.antt =====
-- The reader of `Wire` undoes the writer.
use libwebsock.Prelude.{
  ℕ, ◌^◌, ◌<◌, ◌≡◌, List, ◌++◌, some, arith, length, take-length, drop-length, length-append,
  append_assoc,
}
use libwebsock.Wire.{big_endian, length_field, server_frame, read_number, read_server_frame}

pub read_server_frame-server_frame :
    (first : ℕ) (payload rest : List ℕ)
    → length payload < 2 ^ 32
    → read_server_frame (server_frame first payload ++ rest)
      ≡ some (record { first = first; payload = payload; rest = rest })
unfolding server_frame read_server_frame length_field big_endian read_number
read_server_frame-server_frame first payload rest h = ground (
  arith,
  append_assoc payload rest,
  take-length payload rest,
  drop-length payload rest,
  length-append payload rest,
)
