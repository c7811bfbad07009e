-- ===== src/Configd/Sessions.antt =====
-- src/nightshade-configd/src/state.rs: sessions, and the edits of their candidates.
pub mod Ownership
use nightshade.Shared.{
  ℕ, List, [], ◌∷◌, Bool, true, false, Option, none, some, if◌then◌else◌, ◌==◌, is_nil,
}
use mathlib.Core.Option
use nightshade.Shared.Text.{Text}
use nightshade.Shared.Assoc.{lookup, insert, remove}
use nightshade.Shared.Result.{Result, ok, err}
use nightshade.Schema.Path.{ConfigPath}
use nightshade.Schema.Config.{ConfigTree, new, subtree}
use nightshade.Schema.Diff.{diff}
use nightshade.Configd.Commit.{SchemaOps}
use nightshade.Configd.Archive
use nightshade.Configd.Archive.{no_such_revision, damaged, archive_io}
use nightshade.Configd.Model.{
  Actor, Session, State, Disk, Configd, Env, LoadSource, saved, archived, Response, done, session,
  config, changes, failed, request, validation, internal, belongs_to, never_opened, not_valid,
  refused_edit, nothing_saved, does_not_parse, no_revision, revision_damaged, io_failed,
}

unfoldable pub owned_by : Session → Actor → Bool
owned_by s actor = s.uid == actor.uid

-- The session of an id, if it is there and the actor's; the answer to give if not.
unfoldable pub owned : State → Text → Actor → Result Response Session
unfolding owned_by
owned state id actor = elim (lookup id state.sessions) [
  | none ↦ err (failed request (never_opened id))
  | some s ↦ if owned_by s actor then ok s else err (failed request (belongs_to id s.username))
]

abbrev pub io_failure : Response
io_failure = failed internal io_failed

-- `subtree(path).unwrap_or_default()`.
abbrev pub shown : ConfigTree → ConfigPath → Response
shown tree path = config (Option.get_or (subtree tree path) new)

module _ {W : Type 0} where
  -- A handler that needs the actor's session: it goes on with it, or answers and changes nothing.
  unfoldable pub with_session :
      Text → Actor → (Session → Configd W → Configd W × Response) → Configd W → Configd W × Response
  with_session id actor next d = elim (owned d.state id actor) [
    | err answer ↦ (d, answer)
    | ok s ↦ next s d
  ]

  -- The sessions in memory with this one put back.
  abbrev pub put_session : Text → Session → Configd W → Configd W
  put_session id s d = record d {
    state = record d.state { sessions = insert id s d.state.sessions };
  }

  -- `store.save`: write and rename, so that a failure leaves the file that was there.
  unfoldable pub store_session : Env → Session → Configd W → Configd W
  store_session env s d =
      if env.saves_session
      then record d { disk = record d.disk { session_files = insert s.id s d.disk.session_files } }
      else d

  -- A session changed in memory and then stored. The change stays in memory if storing fails.
  unfoldable pub update_session : Env → Text → Session → Configd W → Configd W × Response
  unfolding store_session
  update_session env id s d =
      (store_session env s (put_session id s d), (if env.saves_session then done else io_failure))

  unfoldable pub open_session : Env → Actor → Configd W → Configd W × Response
  unfolding store_session
  open_session env actor d = elim env.random_id [
    | none ↦ (d, io_failure)
    | some id ↦
        let s : Session = record {
          id = id;
          uid = actor.uid;
          username = actor.username;
          candidate = d.state.running;
          base_generation = d.state.generation;
        } in
        if env.saves_session
        then (put_session id s (store_session env s d), session id)
        else (d, io_failure)
  ]

  unfoldable pub close_owned : Env → Text → Session → Configd W → Configd W × Response
  close_owned env id s d =
      let gone = record d { state = record d.state { sessions = remove id d.state.sessions } } in
      (
        (if env.forgets_session
            then record gone {
              disk = record gone.disk { session_files = remove id gone.disk.session_files };
            }
            else gone),
        done,
      )

  unfoldable pub close : Env → Text → Actor → Configd W → Configd W × Response
  unfolding with_session close_owned
  close env id actor = with_session id actor (close_owned env id)

  unfoldable pub discard_owned : Env → Text → Session → Configd W → Configd W × Response
  unfolding update_session
  discard_owned env id s d =
      update_session env id
        (record s { candidate = d.state.running; base_generation = d.state.generation }) d

  unfoldable pub discard : Env → Text → Actor → Configd W → Configd W × Response
  unfolding with_session discard_owned
  discard env id actor = with_session id actor (discard_owned env id)

  -- The schema edits a copy, and a refusal leaves the candidate as it was.
  unfoldable pub edit_owned :
      (ConfigTree → Result Text ConfigTree)
      → Env
      → Text
      → Session
      → Configd W
      → Configd W × Response
  unfolding update_session
  edit_owned change env id s d = elim (change s.candidate) [
    | err e ↦ (d, failed validation (refused_edit e))
    | ok candidate ↦ update_session env id (record s { candidate = candidate }) d
  ]

  unfoldable pub set :
      SchemaOps → Env → Text → Actor → ConfigPath → Option Text → Configd W → Configd W × Response
  unfolding with_session edit_owned
  set schema env id actor path value =
      with_session id actor (edit_owned (λ t. schema.apply_set t path value) env id)

  unfoldable pub delete :
      SchemaOps → Env → Text → Actor → ConfigPath → Option Text → Configd W → Configd W × Response
  unfolding with_session edit_owned
  delete schema env id actor path value =
      with_session id actor (edit_owned (λ t. schema.apply_delete t path value) env id)

  -- The configuration that a `load` names, or the answer to give.
  unfoldable pub source_config :
      SchemaOps → Env → LoadSource → Configd W → Result Response ConfigTree
  unfolding Archive.read
  source_config schema env saved d =
      if env.reads_boot
      then elim d.disk.config_boot [
        | none ↦ err (failed request nothing_saved)
        | some text ↦ elim (schema.parse_curly text) [
          | ok tree ↦ ok tree
          | err e ↦ err (failed validation (does_not_parse e))
        ]
      ]
      else err io_failure
  source_config schema env (archived n) d =
      if env.reads_archive
      then elim (Archive.read schema n d.disk.archive) [
        | ok tree ↦ ok tree
        | err (no_such_revision m) ↦ err (failed request (no_revision m))
        | err (damaged m e) ↦ err (failed request (revision_damaged m e))
        | err archive_io ↦ err (failed request io_failed)
      ]
      else err (failed request io_failed)

  unfoldable pub load_owned :
      SchemaOps → Env → Text → LoadSource → Session → Configd W → Configd W × Response
  unfolding source_config update_session
  load_owned schema env id source s d = elim (source_config schema env source d) [
    | err answer ↦ (d, answer)
    | ok tree ↦
        let violations = schema.validate_tree tree in
        if is_nil violations
        then update_session env id (record s { candidate = tree }) d
        else (d, failed validation (not_valid violations))
  ]

  unfoldable pub load :
      SchemaOps → Env → Text → Actor → LoadSource → Configd W → Configd W × Response
  unfolding with_session load_owned
  load schema env id actor source = with_session id actor (load_owned schema env id source)

  unfoldable pub show_owned : ConfigPath → Session → Configd W → Configd W × Response
  show_owned path s d = (d, shown s.candidate path)

  unfoldable pub show_candidate : Text → Actor → ConfigPath → Configd W → Configd W × Response
  unfolding with_session show_owned
  show_candidate id actor path = with_session id actor (show_owned path)

  unfoldable pub show_running : ConfigPath → Configd W → Configd W × Response
  show_running path d = (d, shown d.state.running path)

  -- A `config.boot` that is not there reads as an empty text.
  unfoldable pub show_saved : SchemaOps → Env → ConfigPath → Configd W → Configd W × Response
  show_saved schema env path d =
      if env.reads_boot
      then (
        d,
        elim (schema.parse_curly (Option.get_or d.disk.config_boot [])) [
          | ok tree ↦ shown tree path
          | err e ↦ failed validation (does_not_parse e)
        ],
      )
      else (d, io_failure)

  unfoldable pub compare_owned : Session → Configd W → Configd W × Response
  compare_owned s d = (d, changes (diff d.state.running s.candidate))

  unfoldable pub compare : Text → Actor → Configd W → Configd W × Response
  unfolding with_session compare_owned
  compare id actor = with_session id actor compare_owned

  -- `config.boot` is written beside the old one and renamed over it.
  unfoldable pub save : SchemaOps → Env → Configd W → Configd W × Response
  save schema env d =
      if env.writes_boot
      then (
        record d {
          disk = record d.disk { config_boot = some (schema.render_curly d.state.running) };
        },
        done,
      )
      else (d, io_failure)
