-- ===== src/Render/Ini.antt =====
-- src/nightshade-render/src/ini.rs: the writer of systemd's unit files.
--
-- A method takes the writer and returns it changed. A key that comes before any section is written
-- without one.
use nightshade.Shared.{List, [], ◌∷◌, ◌++◌, Bool, true, false, Option, none, some, if◌then◌else◌}
use nightshade.Shared.Text.{Text, codes}
pub mod Sections

abbrev pub header : Text
header =
    codes
      "# Managed by Nightshade. Do not edit.\n#\n# This file is generated from /etc/nightshade/config.boot and is rewritten on\n# every commit. Changes made here are lost, and are not part of the config the\n# next boot will apply.\n"

pub record Ini : Type 0 where
  pub out : Text
  pub pending : Option Text
  pub wrote_any : Bool

unfoldable pub new : Ini
new = record { out = header; pending = none; wrote_any = false }

unfoldable pub section : Text → Ini → Ini
section name ini = record ini { pending = some name }

-- The text once the section that waits, if one does, has its line.
abbrev pub opened : Text → Option Text → Text
opened out none = out
opened out (some name) = out ++ 10 ∷ 91 ∷ name ++ 93 ∷ 10 ∷ []

abbrev pub key_line : Text → Text → Text
key_line k value = k ++ 61 ∷ value ++ 10 ∷ []

unfoldable pub key : Text → Text → Ini → Ini
key k value ini = record {
  out = opened ini.out ini.pending ++ key_line k value;
  pending = none;
  wrote_any = true;
}

unfoldable pub maybe : Text → Option Text → Ini → Ini
unfolding key
maybe k none ini = ini
maybe k (some value) ini = key k value ini

unfoldable pub each : Text → List Text → Ini → Ini
unfolding key
each k [] ini = ini
each k (value ∷ values) ini = each k values (key k value ini)

unfoldable pub flag : Text → Bool → Ini → Ini
unfolding key
flag k set ini = key k (if set then codes "yes" else codes "no") ini

unfoldable pub finish : Ini → Text
finish ini = ini.out
