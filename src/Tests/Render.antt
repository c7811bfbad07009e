-- ===== src/Tests/Render.antt =====
-- An example of a unit file.
use nightshade.Shared.{List, [], ◌∷◌, ◌++◌, none, ◌≡◌, refl}
use nightshade.Shared.Text.{codes}
use nightshade.Render.Ini.{new, finish, header}
use nightshade.Render.Ini.Sections.{
  Call, begin, one, perhaps, many, write, contents, keys_text, sections_text, write-contents,
}

-- A section with a key, one without, and one with a list.
abbrev calls : List Call
calls =
    begin (codes "Match")
    ∷ one (codes "Name") (codes "eth0")
    ∷ begin (codes "Link")
    ∷ perhaps (codes "MTUBytes") none
    ∷ begin (codes "Network")
    ∷ many (codes "Address") (codes "10.0.0.1/24" ∷ codes "10.0.1.1/24" ∷ [])
    ∷ []

write-contents_example :
    finish (write calls new)
    ≡ header ++ keys_text (contents calls).0 ++ sections_text (contents calls).1
write-contents_example = write-contents calls

written_out :
    finish (write calls new)
    ≡ header
      ++ codes "\n[Match]\nName=eth0\n\n[Network]\nAddress=10.0.0.1/24\nAddress=10.0.1.1/24\n"
unfolding finish write new
written_out = refl
