-- ===== src/Schema/Validate.antt =====
-- src/nightshade-schema/src/validate.rs: what is wrong with a configuration, and where.
pub mod Setting
pub mod Types
pub mod Expand
pub mod Cross
pub mod Global
pub mod Fits
pub mod Keeps
pub mod Sets
pub mod Valid
pub mod Found
pub mod Removal
pub mod Deletes
use nightshade.Shared.{ℕ, List, [], ◌∷◌, ◌++◌}
use nightshade.Shared.Text.{Text, codes}
use nightshade.Schema.Path.{ConfigPath}
use nightshade.Schema.Value.{ValueError, Zones}

pub record Violation : Type 0 where
  pub path : ConfigPath
  pub message : Text

-- What the standard library and the system answer: the time zones, and `{:?}` of a text and of a
-- character.
pub record Platform : Type 0 where
  pub zones : Zones
  pub debug : Text → Text
  pub debug_char : ℕ → Text

-- One violation, as a list.
abbrev pub violation : ConfigPath → Text → List Violation
violation path message = record { path = path; message = message } ∷ []

-- `ValueError`'s `Display`.
abbrev pub error_text : Platform → ValueError → Text
error_text platform e = platform.debug e.value ++ (codes " is not " ++ e.expected)
