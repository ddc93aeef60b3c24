-- ===== src/Client.antt =====
-- A client from `libwebsock_client_init` to `libwebsock_client_destroy` (src/api.c).
pub mod Connection
use libwebsock.Prelude.{true, none, []}
use libwebsock.Types.{ClientState, no_flags}
use libwebsock.Frames.{no_frames}

-- The callbacks that it sets are `default_callbacks` of `DefaultCallbacks`.
unfoldable pub client_init : ClientState
client_init = record {
  flags = record no_flags { connecting = true };
  out_data = none;
  current_frame = [];
  close_info = none;
}

-- `libwebsock_cleanup_outdata` of src/websock.c: the block and the string are freed.
unfoldable pub cleanup_outdata : ClientState → ClientState
cleanup_outdata s = record s { out_data = none }

-- What the client holds when it is freed itself.
unfoldable pub client_destroy : ClientState → ClientState
client_destroy s = no_frames (cleanup_outdata (record s { close_info = none }))
