-- ===== src/Session.antt =====
-- One forwarded connection: `pipe` of pkg/bastion/session.go. The channels, the goroutines and the log
-- file appear as the messages that they send and the effects on them.
pub mod Pipe
pub mod Relay
pub mod Start
pub mod Hops
pub mod Closing
pub mod Requests
pub mod Chain
pub mod Settling
pub mod Lifecycle
pub mod Interleaving
pub mod Endings
pub mod Effects
mod Tests
