-- ===== src/Ut2k.antt =====
-- src/Engines/UT2K: the query engine of Unreal Tournament 2003 and 2004, and their master server.
pub mod Query
pub mod MasterServer
pub mod Invoke
