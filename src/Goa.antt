-- ===== src/Goa.antt =====
-- src/Engines/GOA: the query engine of GameSpy's first protocol, and its server list.
pub mod Query
pub mod ServerList
pub mod Invoke
