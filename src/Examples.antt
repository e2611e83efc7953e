-- ===== src/Examples.antt =====
-- Runs of the definitions, and the theorems at concrete inputs.
mod Strings
mod Arrays
mod Unicode
mod Maps
mod Options
mod Logs
mod Args
mod Commands
mod Paths
mod Timers
mod Listings
mod Files
