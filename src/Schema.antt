-- ===== src/Schema.antt =====
-- src/nightshade-schema: the configuration tree, its paths and its differences.
pub mod Path
pub mod ValueSet
pub mod Entries
pub mod Config
pub mod Diff
pub mod Lex
pub mod Value
pub mod PathText
pub mod Model
pub mod Validate
pub mod Curly
pub mod Wording
