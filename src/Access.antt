-- ===== src/Access.antt =====
-- Who may reach which host: pkg/bastion/acl.go. The loops of checkACLs, the external hook, and what
-- the two decide together.
pub mod Acls
mod Entries
mod Coverage
pub mod Hook
pub mod Decision
pub mod Verdict
pub mod Policy
pub mod Sorting
pub mod Samples
mod Tests
