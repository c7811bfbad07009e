-- ===== src/Schema/Curly.antt =====
-- src/nightshade-schema/src/curly.rs: the text form of a configuration.
pub mod Parse
pub mod Render
pub mod Fuel
pub mod Readers
pub mod Ends
