-- ===== src/Server.antt =====
-- The program that runs the portal: server.go, main.go and healthcheck.go, and of
-- pkg/bastion/ssh.go the handler of a shell and the loading of the host key.
pub mod Config
pub mod Flags
pub mod HostKey
pub mod Handlers
pub mod Run
pub mod Health
pub mod Keys
pub mod Start
pub mod Alive
mod Tests
