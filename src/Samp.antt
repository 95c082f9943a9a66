-- ===== src/Samp.antt =====
-- src/Engines/SAMP: the query engine of San Andreas Multiplayer.
pub mod Query
