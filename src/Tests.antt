-- ===== src/Tests.antt =====
-- Examples: the results of the other modules at concrete inputs.
mod Monitor
mod Ut2k
mod Answers
mod MasterServer
mod Goa
mod Sbv2
mod Redis
mod Lists
mod Listener
mod Process
