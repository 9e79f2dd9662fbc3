-- ===== src/Client.antt =====
-- packages/local-agent-client/src: the client of the local agent API.
pub mod Ndjson
