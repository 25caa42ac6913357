-- ===== src/Wire.antt =====
-- wire/client_conn.go: a connection of the client. Requests has the correlation of replies with requests,
-- Streams the tables of the open streams, Handshake the answer to the connect request.
pub mod Queues
pub mod Requests
pub mod Upstreams
pub mod Downstreams
pub mod Handshake
mod Tests
