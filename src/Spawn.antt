-- ===== src/Spawn.antt =====
-- Starting a process: what GoRoutineProcessNative.h, and GoRoutineNative.h with the same text, make of
-- the arguments and the options before they call the operating system.
pub mod Arguments
pub mod CommandLine
pub mod Environment
pub mod Process
pub mod Windows
