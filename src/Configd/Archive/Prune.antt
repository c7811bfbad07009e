-- ===== src/Configd/Archive/Prune.antt =====
-- src/nightshade-configd/src/archive.rs: what a write keeps.
use nightshade.Shared.{
  ℕ, zero, suc, ◌≤◌, ◌<◌, List, [], ◌∷◌, ◌++◌, none, some, ◌≡◌, ◌∙◌, refl, ap, arith, Ordering, All,
  length, take,
}
use nightshade.Shared.Result.{ok, err}
use nightshade.Shared.Sort.{sort_by, insert_by}
use nightshade.Schema.Config.{ConfigTree}
use nightshade.Configd.Commit.{SchemaOps}
use nightshade.Configd.Archive.{
  RevisionInfo, Stored, Archive, keep, put_files, newest_compare, list, prune, write, find_revision,
  read, no_such_revision,
}

length-take_le : {A : Type 0} (n : ℕ) (l : List A) → length (take n l) ≤ n
length-take_le zero l = omega arith
length-take_le (suc n) [] = omega arith
length-take_le (suc n) (x ∷ l) = omega (arith, length-take_le n l)

take-All : {A : Type 0} (P : A → Type 0) (n : ℕ) (l : List A) → All P l → All P (take n l)
take-All P zero l h = tt
take-All P (suc n) [] h = tt
take-All P (suc n) (x ∷ l) (p, h) = (p, take-All P n l h)

take-append : {A : Type 0} (n : ℕ) (l m : List A) → n ≤ length l → take n (l ++ m) ≡ take n l
take-append zero l m h = refl
take-append (suc n) [] m h = ground (arith, h)
take-append (suc n) (x ∷ l) m h = ap (λ t. x ∷ t) (take-append n l m (omega (arith, h)))

abbrev IsOlder : ℕ → Stored → Type 0
IsOlder n s = s.info.revision < n

abbrev IsNewer : ℕ → Stored → Type 0
IsNewer n s = n < s.info.revision

insert_by-All :
    (P : Stored → Type 0) (x : Stored) (l : List Stored)
    → P x
    → All P l
    → All P (insert_by newest_compare x l)
unfolding insert_by
insert_by-All P x [] p h = (p, tt)
insert_by-All P x (y ∷ l) p (q, h) =
    elim (newest_compare x y)
      as (λ o. All P (elim o [ Ordering.gt ↦ y ∷ insert_by newest_compare x l | _ ↦ x ∷ y ∷ l ])) [
        | Ordering.gt ↦ (q, insert_by-All P x l p h)
        | Ordering.lt ↦ (p, (q, h))
        | Ordering.eq ↦ (p, (q, h))
      ]

list-All : (P : Stored → Type 0) (l : Archive) → All P l → All P (list l)
unfolding list sort_by
list-All P [] h = tt
list-All P (x ∷ l) (p, h) = insert_by-All P x (list l) p (list-All P l h)

length-insert_by :
    (x : Stored) (l : List Stored) → length (insert_by newest_compare x l) ≡ suc (length l)
unfolding insert_by
length-insert_by x [] = refl
length-insert_by x (y ∷ l) = ground (arith, length-insert_by x l)

length-list : (l : Archive) → length (list l) ≡ length l
unfolding list sort_by
length-list [] = refl
length-list (x ∷ l) = length-insert_by x (list l) ∙ ap suc (length-list l)

-- A revision newer than all that are listed is listed first.
list-append_newest :
    (x : Stored) (l : Archive) → All (IsOlder x.info.revision) l → list (l ++ x ∷ []) ≡ x ∷ list l
unfolding list sort_by insert_by newest_compare
list-append_newest x [] h = refl
list-append_newest x (y ∷ l) (p, h) =
    ap (insert_by newest_compare y) (list-append_newest x l h) ∙ ground (arith, p)

list-cons_newest :
    (x : Stored) (l : Archive) → All (IsOlder x.info.revision) l → list (x ∷ l) ≡ x ∷ list l
unfolding list sort_by insert_by newest_compare
list-cons_newest x l h = first (list l) (list-All (IsOlder x.info.revision) l h)
  where
    first :
        (m : List Stored) → All (IsOlder x.info.revision) m → insert_by newest_compare x m ≡ x ∷ m
    first [] k = refl
    first (y ∷ m) (q, k) = ground (arith, q)

insert_by-append_oldest :
    (y x : Stored) (l : List Stored)
    → x.info.revision < y.info.revision
    → insert_by newest_compare y (l ++ x ∷ []) ≡ insert_by newest_compare y l ++ x ∷ []
unfolding insert_by newest_compare
insert_by-append_oldest y x [] h = ground arith
insert_by-append_oldest y x (z ∷ l) h = ground (arith, insert_by-append_oldest y x l h)

-- A revision older than all that are listed is listed last.
list-append_oldest :
    (x : Stored) (l : Archive)
    → All (IsNewer x.info.revision) l
    → list (l ++ x ∷ []) ≡ list l ++ x ∷ []
unfolding list sort_by
list-append_oldest x [] h = refl
list-append_oldest x (y ∷ l) (p, h) =
    ap (insert_by newest_compare y) (list-append_oldest x l h)
    ∙ insert_by-append_oldest y x (list l) p

put_files-older :
    (x : Stored) (l : Archive) → All (IsOlder x.info.revision) l → put_files x l ≡ l ++ x ∷ []
unfolding put_files
put_files-older x [] h = refl
put_files-older x (y ∷ l) (p, h) = ground (arith, p, put_files-older x l h)

put_files-newer :
    (x : Stored) (l : Archive) → All (IsNewer x.info.revision) l → put_files x l ≡ l ++ x ∷ []
unfolding put_files
put_files-newer x [] h = refl
put_files-newer x (y ∷ l) (p, h) = ground (arith, p, put_files-newer x l h)

find_revision-newer : (n : ℕ) (l : List Stored) → All (IsNewer n) l → find_revision n l ≡ none
unfolding find_revision
find_revision-newer n [] h = refl
find_revision-newer n (y ∷ l) (p, h) = ground (arith, p, find_revision-newer n l h)

read-eq-ok :
    (schema : SchemaOps) (n : ℕ) (archive : Archive) (s : Stored) (config : ConfigTree)
    → find_revision n (list archive) ≡ some s
    → schema.parse_curly s.text ≡ ok config
    → read schema n archive ≡ ok config
unfolding read
read-eq-ok schema n archive s config found parses = rw (found, read, parses)

read-eq-err :
    (schema : SchemaOps) (n : ℕ) (archive : Archive)
    → find_revision n (list archive) ≡ none
    → read schema n archive ≡ err (no_such_revision n)
unfolding read
read-eq-err schema n archive gone = rw (gone, read)

-- However many revisions there were, at most fifty are left by a write.
pub length-write :
    (schema : SchemaOps) (info : RevisionInfo) (config : ConfigTree) (archive : Archive)
    → length (write schema info config archive) ≤ keep
unfolding write prune
length-write schema info config archive =
    let new : Stored = record { info = info; text = schema.render_curly config } in
    length-take_le keep (list (put_files new archive))

-- A revision written over revisions that all have smaller numbers reads back as the configuration
-- written, where its text parses back to it.
pub read-write :
    (schema : SchemaOps) (info : RevisionInfo) (config : ConfigTree) (archive : Archive)
    → All (IsOlder info.revision) archive
    → schema.parse_curly (schema.render_curly config) ≡ ok config
    → read schema info.revision (write schema info config archive) ≡ ok config
unfolding write prune find_revision
read-write schema info config archive older parses =
    let new : Stored = record { info = info; text = schema.render_curly config } in
    let rest = take 49 (list archive) in
    let written : prune (put_files new archive) ≡ new ∷ rest =
      ap prune (put_files-older new archive older)
      ∙ ap (take keep) (list-append_newest new archive older) in
    let listed : list (new ∷ rest) ≡ new ∷ list rest = list-cons_newest new rest (
      take-All (IsOlder info.revision) 49 (list archive)
        (list-All (IsOlder info.revision) archive older)) in
    ap (read schema info.revision) written
    ∙ read-eq-ok schema info.revision (new ∷ rest) new config
        (ap (find_revision info.revision) listed ∙ ground arith) parses

-- A revision written over a full archive of revisions that all have larger numbers is gone as soon
-- as it is written.
pub read-write_lost :
    (schema : SchemaOps) (info : RevisionInfo) (config : ConfigTree) (archive : Archive)
    → All (IsNewer info.revision) archive
    → keep ≤ length archive
    → read schema info.revision (write schema info config archive)
      ≡ err (no_such_revision info.revision)
unfolding write prune find_revision
read-write_lost schema info config archive newer full =
    let new : Stored = record { info = info; text = schema.render_curly config } in
    let kept = take keep (list archive) in
    let written : prune (put_files new archive) ≡ kept =
      ap prune (put_files-newer new archive newer)
      ∙ ap (take keep) (list-append_oldest new archive newer)
      ∙ take-append keep (list archive) (new ∷ []) (omega (arith, length-list archive, full)) in
    let gone : find_revision info.revision (list kept) ≡ none =
      find_revision-newer info.revision (list kept) (
        list-All (IsNewer info.revision) kept (
          take-All (IsNewer info.revision) keep (list archive)
            (list-All (IsNewer info.revision) archive newer))) in
    ap (read schema info.revision) written ∙ read-eq-err schema info.revision kept gone
