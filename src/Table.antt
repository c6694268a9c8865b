-- ===== src/Table.antt =====
-- hashtable.c: the hash table of fixed-size buckets. `Data` has its types, `Keys` the operations on
-- one key, `Life` creation, destruction and clearing, `Resize` and `Monitor` the rest; the other
-- children prove what these do.
pub mod Data
pub mod Scan
pub mod Keys
pub mod Slots
pub mod Buckets
pub mod Valid
pub mod Writes
pub mod Outcomes
pub mod Set
pub mod Change
pub mod Read
pub mod Empty
pub mod Life
pub mod Resize
pub mod Created
pub mod Cleared
pub mod Moved
pub mod Rehash
pub mod Resized
pub mod Faults
pub mod Monitor
pub mod Safe
pub mod Destroyed
pub mod Growth
pub mod Wrapped
pub mod LongKeys
pub mod Measured
pub mod Refused
pub mod Order
pub mod KeyLocks
pub mod AllLocks
pub mod Locked
pub mod Calls
pub mod Threads
pub mod Waiting
pub mod Deadlock
pub mod Weights
pub mod Conserved
pub mod Advance
pub mod Trace
mod Tests
