-- ===== src/Proc.antt =====
-- Code that asks the system about processes and files, under src/bas/proc.
pub mod Env
pub mod Timer
pub mod Gdb
pub mod Console
