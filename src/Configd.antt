-- ===== src/Configd.antt =====
-- src/nightshade-configd: the configuration daemon.
pub mod Commit
pub mod Schemas
pub mod Archive
pub mod Model
pub mod Sessions
pub mod Steps
pub mod Committing
pub mod Lifecycle
pub mod Boot
pub mod System
