-- ===== src/Lib.antt =====
-- libwebsock: the handshake and the WebSocket frame layer of src/*.c, and the theorems about them.
--
-- The library keeps one `libwebsock_client_state` per connection. `libwebsock_populate_handshake`
-- answers the request that opens it. Bytes from the network then go to
-- `libwebsock_handle_recv` (src/websock.c), which reads frame headers byte by byte, copies payloads
-- and calls, by a table of the first bytes, the function for the frame: dispatch of a message to
-- `onmessage`, control frames to `oncontrol`, a further frame of a fragmented message, or the
-- failure of the connection. Frames to the peer are appended to `out_data` by
-- `libwebsock_make_fragment`, through the functions of src/api.c and the default callbacks.
--
-- Parts, by file:
--   Prelude            shared names, outcomes, lists, bits.
--   Memory             objects as lists of bytes; `lws_calloc`, `lws_malloc`, `lws_realloc` (src/util.c).
--                      The C library's allocator is a parameter: which requests it grants and what a
--                      fresh block holds. A refused request exits, an access outside an object is a
--                      fault.
--   Types              src/types.h and the constants of src/websock.h. The chain of frames is a list
--                      with the current frame first; the flags are a record of Booleans.
--   Utf8               src/utf.c and `validate_utf8_sequence` (src/util.c); Utf8.Grammar is the
--                      encoding of Unicode, independent of them.
--   ByteOrder          the conversions of 16 and 64 bits of src/util.c; ByteOrder.Digits has what they
--                      need of `&` and `|`.
--   Wire               frames as RFC 6455 has them, independent of the code.
--   Header             `libwebsock_read_header` (src/websock.c).
--   Fragment           `libwebsock_make_fragment` (src/websock.c).
--   Api                the functions of src/api.c that make frames.
--   Client             `libwebsock_client_init`, `libwebsock_client_destroy` (src/api.c) and
--                      `libwebsock_cleanup_outdata` (src/websock.c); Client.Connection joins the
--                      handshake and the receive loop.
--   CStrings           what the handshake uses of the C library: strstr, strncpy, strtok, strcmp,
--                      %08x, %02hhx.
--   Handshake          `libwebsock_populate_handshake` and `get_selected_subprotocol`
--                      (src/websock.c). SHA-1 is a parameter, from bytes to five words.
--                      Handshake.Strings has the searches on arrays with a NUL and without one.
--   Frames             src/frames.c, `libwebsock_error` and
--                      `libwebsock_populate_close_info_from_frame` (src/websock.c); Frames.Failing
--                      has what a failed connection comes to.
--   Dispatch           `libwebsock_dispatch_message` (src/websock.c).
--   DefaultCallbacks   src/default_callbacks.c. A callback is a function from the state to a state
--                      and a return value; the callbacks of an application are parameters.
--   Receive            `libwebsock_handle_recv` (src/websock.c). The loop is by recursion on the
--                      bytes; a counter passes over those that `memcpy` has taken.
--   Receive.Chunks, Receive.Calls
--                      how the loop stands when the bytes of a call are used up, and what the next
--                      call makes of it.
--   Receive.Late       a message that ends after a close frame was sent.
--   Safety             the invariant of a client and its preservation: Safety.Blocks (accesses),
--                      Safety.Header (`libwebsock_read_header`), Safety.Text (strings), Safety.Frames
--                      (the functions of the table), Safety.Allowed, Safety.Steps and Safety.Loop
--                      (`libwebsock_handle_recv`), Safety.Sending (`libwebsock_make_fragment`),
--                      Safety.Payload, Safety.Replies and Safety.Control (the default callbacks). The
--                      callbacks enter by the interface `KeepsSafe`; the allocator is
--                      taken to refuse 0 bytes and 2^31 or more, as under a limit of memory
--                      (`IsBounded`).
--                      Two defects of the code are left out of the inputs (`allowed`): the null
--                      entries of the table, and final data frames after a close frame was sent.
--   Base64             src/base64.c.
--   Stream             an abstract receiver, `follow`: a client and the message of which not all
--                      parts have arrived, without bytes, blocks and chains of frames. Stream.Shown has
--                      the relation between it and the client's state, Stream.Handed, Stream.Kept and
--                      Stream.Pongs what a message, a ping and a pong come to, Stream.Pieces one frame and
--                      Stream.Follows the refinement.
--   Logger             `write_log` (src/logger.c).
--   AutobahnEcho       examples/autobahn-echo.c on one connection: its callback, its reads and
--                      writes, its loop, which is by recursion on what `read` delivers.
--   Tests              the theorems at concrete inputs, and runs of the code.
--
-- A function returns `ok` of its result, `fault` where the C code leaves an object, follows a null
-- pointer or calls one, or hands a function for strings an array in which it finds no end, or
-- `exited` where an allocation fails. Machine integers are ℕ with their wrap-around written out;
-- lengths of one call of `libwebsock_handle_recv` are taken to be below 2^31, since `i` is an `int`.
-- `size_t` has 64 bits; where it has 32, the sum of payload lengths for `lws_malloc` wraps, which is
-- outside this model. Conversions of byte order are those of a little-endian machine. No function
-- needs fuel but `decimal` of Logger, which is given the ten digits that an `int` has at most.
-- Allocations of a fixed small size (structs, the first 1024 bytes of a frame) are taken to be
-- granted.
--
-- Not modelled: `libwebsock_dump_frame`, which only logs; src/openssl.c, glue to libraries outside
-- the repository; src/sha1.c, a copy of another project's code; `main` of
-- examples/autobahn-echo.c, which listens and forks; the other examples, which call functions that
-- the library does not have. The calls of the log are left out of the functions that make them.
pub mod Prelude
pub mod Utf8
pub mod Memory
pub mod Types
pub mod ByteOrder
pub mod Wire
pub mod Header
pub mod Fragment
pub mod Api
pub mod Frames
pub mod Dispatch
pub mod DefaultCallbacks
pub mod Receive
pub mod Base64
pub mod CStrings
pub mod Client
pub mod Handshake
pub mod Safety
pub mod Stream
pub mod Logger
pub mod AutobahnEcho
pub mod Tests
