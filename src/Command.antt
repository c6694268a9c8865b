-- ===== src/Command.antt =====
-- command.c and command.h: the commands, their registry, and their execution on the hash table.
pub mod Data
pub mod Procs
pub mod Registry
pub mod Build
pub mod Execute
pub mod Lookup
pub mod Inputs
pub mod Ended
pub mod Responds
pub mod Dispatch
pub mod RoundTrip
pub mod Counts
mod Tests
