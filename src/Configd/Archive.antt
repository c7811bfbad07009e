-- ===== src/Configd/Archive.antt =====
-- src/nightshade-configd/src/archive.rs: the revisions that confirmed commits leave.
--
-- The directory is the list of its revisions, each a sidecar with its configuration. A revision's
-- files are named by its number and its stamp, so one with both the same is overwritten. Damaged
-- files, which `list` skips with a warning, are not in the list; gzip and the encoding of the
-- sidecar are the libraries'. A configuration is kept as the text that `curly::render` gives.
pub mod Prune
use nightshade.Shared.{
  ℕ, zero, suc, List, [], ◌∷◌, ◌++◌, Bool, true, false, ◌&&◌, Option, none, some, if◌then◌else◌,
  ◌==◌, Ordering, compare, drop, take, map,
}
use nightshade.Shared.Text.{Text, text_eq}
use nightshade.Shared.Result.{Result, ok, err, ◌>>=◌}
use nightshade.Shared.Sort.{sort_by}
use nightshade.Schema.Config.{ConfigTree}
use nightshade.Schema.Diff.{Change}
use nightshade.Configd.Commit.{SchemaOps}

-- src/nightshade-common/src/lib.rs
abbrev pub keep : ℕ
keep = 50

pub record RevisionInfo : Type 0 where
  pub revision : ℕ
  pub timestamp : Text
  pub actor : Text
  pub actor_uid : ℕ
  pub comment : Option Text
  pub changes : List Change

pub record Stored : Type 0 where
  pub info : RevisionInfo
  pub text : Text

abbrev pub Archive : Type 0
Archive = List Stored

pub data ArchiveError : Type 0 where
  no_such_revision : ℕ → ArchiveError
  damaged : ℕ → Text → ArchiveError
  archive_io : ArchiveError

-- The same file names.
abbrev pub same_stem : Stored → Stored → Bool
same_stem a b = a.info.revision == b.info.revision && text_eq a.info.timestamp b.info.timestamp

unfoldable pub put_files : Stored → Archive → Archive
put_files new [] = new ∷ []
put_files new (old ∷ rest) = if same_stem old new then new ∷ rest else old ∷ put_files new rest

-- `sort_by_key(|info| Reverse(info.revision))`.
unfoldable pub newest_compare : Stored → Stored → Ordering
newest_compare a b = compare b.info.revision a.info.revision

unfoldable pub list : Archive → List Stored
unfolding newest_compare
list archive = sort_by newest_compare archive

-- Everything past the newest `keep` of the listing is removed. What is left is given in the order
-- of the listing.
unfoldable pub prune : Archive → Archive
unfolding list
prune archive = take keep (list archive)

unfoldable pub write : SchemaOps → RevisionInfo → ConfigTree → Archive → Archive
unfolding put_files prune
write schema info config archive =
    prune (put_files (record { info = info; text = schema.render_curly config }) archive)

unfoldable pub find_revision : ℕ → List Stored → Option Stored
find_revision n [] = none
find_revision n (s ∷ rest) = if s.info.revision == n then some s else find_revision n rest

unfoldable pub read : SchemaOps → ℕ → Archive → Result ArchiveError ConfigTree
unfolding list find_revision
read schema n archive = elim (find_revision n (list archive)) [
  | none ↦ err (no_such_revision n)
  | some s ↦ elim (schema.parse_curly s.text) [
    | ok config ↦ ok config
    | err reason ↦ err (damaged n reason)
  ]
]
