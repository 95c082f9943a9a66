-- ===== src/Qr2.antt =====
-- src/Engines/QR2: the query engine of GameSpy's second protocol, and its server list.
pub mod Query
pub mod Stream
pub mod ServerList
pub mod Invoke
