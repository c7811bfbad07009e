-- ===== src/Render/Ini/Sections.antt =====
-- src/nightshade-render/src/ini.rs: the file that a sequence of calls writes, section by section.
use nightshade.Shared.{
  List, [], ◌∷◌, ◌++◌, Bool, Option, none, some, if◌then◌else◌, ◌≡◌, refl, ◌∙◌, sym,
}
use mathlib.Core.List.{append_assoc, append-nil}
use nightshade.Shared.Text.{Text, codes}
use nightshade.Render.Ini.{
  Ini, new, section, key, maybe, each, flag, finish, header, opened, key_line,
}

-- The calls of a renderer on the writer.
pub data Call : Type 0 where
  begin : Text → Call
  one : Text → Text → Call
  perhaps : Text → Option Text → Call
  many : Text → List Text → Call
  set : Text → Bool → Call

unfoldable pub call : Call → Ini → Ini
unfolding section key maybe each flag
call (begin name) ini = section name ini
call (one k value) ini = key k value ini
call (perhaps k value) ini = maybe k value ini
call (many k values) ini = each k values ini
call (set k b) ini = flag k b ini

unfoldable pub write : List Call → Ini → Ini
unfolding call
write [] ini = ini
write (c ∷ cs) ini = write cs (call c ini)

-- The keys and values that a call writes.
abbrev entries_of : Call → List (Text × Text)
entries_of (begin name) = []
entries_of (one k value) = (k, value) ∷ []
entries_of (perhaps k none) = []
entries_of (perhaps k (some value)) = (k, value) ∷ []
entries_of (many k []) = []
entries_of (many k (value ∷ values)) = (k, value) ∷ entries_of (many k values)
entries_of (set k b) = (k, if b then codes "yes" else codes "no") ∷ []

-- A file without its layout: the keys before any section, and the sections with theirs.
abbrev pub Contents : Type 0
Contents = List (Text × Text) × List (Text × List (Text × Text))

abbrev extend : Call → Contents → Contents
extend (begin name) doc = ([], (name, doc.0) ∷ doc.1)
extend c doc = (entries_of c ++ doc.0, doc.1)

abbrev pub contents : List Call → Contents
contents [] = ([], [])
contents (c ∷ cs) = extend c (contents cs)

abbrev pub keys_text : List (Text × Text) → Text
keys_text [] = []
keys_text ((k, value) ∷ keys) = key_line k value ++ keys_text keys

-- A section that holds nothing is left out, its header included.
abbrev pub section_text : Text → List (Text × Text) → Text
section_text name [] = []
section_text name (e ∷ keys) = opened [] (some name) ++ keys_text (e ∷ keys)

abbrev pub sections_text : List (Text × List (Text × Text)) → Text
sections_text [] = []
sections_text ((name, keys) ∷ sections) = section_text name keys ++ sections_text sections

abbrev under : Option Text → List (Text × Text) → Text
under none keys = keys_text keys
under (some name) keys = section_text name keys

-- The file, where some of it is written already.
abbrev file_from : Text → Option Text → Contents → Text
file_from out pending doc = out ++ under pending doc.0 ++ sections_text doc.1

abbrev file : Ini → Contents → Text
file ini doc = file_from ini.out ini.pending doc

key-file_from :
    (out : Text) (pending : Option Text) (k value : Text) (doc : Contents)
    → file_from (opened out pending ++ key_line k value) none doc
      ≡ file_from out pending ((k, value) ∷ doc.0, doc.1)
key-file_from out none k value doc = simp append_assoc
key-file_from out (some name) k value doc = simp append_assoc

section-file_from :
    (out : Text) (pending : Option Text) (name : Text) (doc : Contents)
    → file_from out (some name) doc ≡ file_from out pending ([], (name, doc.0) ∷ doc.1)
section-file_from out none name doc = simp append_assoc
section-file_from out (some _) name doc = simp append_assoc

key-file :
    (ini : Ini) (k value : Text) (doc : Contents)
    → file (key k value ini) doc ≡ file ini ((k, value) ∷ doc.0, doc.1)
unfolding key
key-file ini k value doc = key-file_from ini.out ini.pending k value doc

call-file :
    (c : Call) (ini : Ini) (doc : Contents) → file (call c ini) doc ≡ file ini (extend c doc)
unfolding call section
call-file (begin name) ini doc = section-file_from ini.out ini.pending name doc
call-file (one k value) ini doc = key-file ini k value doc
call-file (perhaps k none) ini doc = refl
call-file (perhaps k (some value)) ini doc = key-file ini k value doc
call-file (many k []) ini doc = refl
call-file (many k (value ∷ values)) ini doc =
    call-file (many k values) (key k value ini) doc
    ∙ key-file ini k value (extend (many k values) doc)
call-file (set k b) ini doc = key-file ini k (if b then codes "yes" else codes "no") doc

nothing : (out : Text) (pending : Option Text) → out ≡ file_from out pending ([], [])
nothing out none = sym (append-nil (out ++ []) ∙ append-nil out)
nothing out (some _) = sym (append-nil (out ++ []) ∙ append-nil out)

write-file : (cs : List Call) (ini : Ini) → (write cs ini).out ≡ file ini (contents cs)
unfolding write
write-file [] ini = nothing ini.out ini.pending
write-file (c ∷ cs) ini = write-file cs (call c ini) ∙ call-file c ini (contents cs)

-- Whatever calls a renderer makes on the writer of unit files, the file is the header, the keys
-- that came before any section, and each section in order with its keys, one line for each value:
-- a section that got no key is left out, its name included.
pub write-contents :
    (cs : List Call)
    → finish (write cs new) ≡ header ++ keys_text (contents cs).0 ++ sections_text (contents cs).1
unfolding finish new
write-contents cs = write-file cs new
