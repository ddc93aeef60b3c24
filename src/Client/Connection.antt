-- ===== src/Client/Connection.antt =====
-- A connection from its request on: the handshake and what arrives behind it.
