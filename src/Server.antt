-- ===== src/Server.antt =====
-- server.c and server.h: the connections, the parser of requests, and the callbacks of the event loop.
pub mod Data
pub mod Buffer
pub mod Arrays
pub mod Parse
pub mod Handlers
pub mod Main
pub mod Served
pub mod Holds
pub mod Next
pub mod Bounded
pub mod Digits
pub mod Run
pub mod Slots
pub mod Lines
pub mod Request
pub mod LastRead
pub mod Response
pub mod Answer
pub mod Again
pub mod Append
pub mod Read
pub mod Blank
pub mod Split
pub mod Progress
pub mod Feed
pub mod Reads
pub mod Chunks
pub mod Second
mod Tests
