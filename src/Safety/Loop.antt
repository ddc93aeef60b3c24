-- ===== src/Safety/Loop.antt =====
-- `libwebsock_handle_recv` has no undefined behaviour, and keeps a client well, while the peer's
-- frames are such as the code can take.
