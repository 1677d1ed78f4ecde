-- ===== src/Shell.antt =====
-- The administration shell, pkg/bastion/shell.go.
pub mod Store
pub mod Actions
pub mod Fields
pub mod Updates
pub mod Listing
pub mod Acls
pub mod Hosts
pub mod Groups
pub mod Keys
pub mod Users
pub mod Sessions
pub mod Config
pub mod Run
pub mod Atomic
pub mod Permission
pub mod Secrets
pub mod Pages
pub mod Validity
pub mod Backups
pub mod Toy
mod Tests
