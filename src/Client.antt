-- ===== src/Client.antt =====
-- frontend/src/api/client.ts: the messages of errors, the one path of every request, the walk
-- over pages, the calls built on them, and the export of a file.
pub mod Errors
pub mod Request
pub mod Walk
pub mod Calls
pub mod Download
