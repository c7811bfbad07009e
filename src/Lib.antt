-- ===== src/Lib.antt =====
-- Nightshade: a model of the configuration daemon and of the configuration tree.
--
-- Nightshade keeps the configuration of a firewall as a tree. The daemon configd serves operators
-- over a socket: each opens a session with a candidate of its own, edits it, and commits it, which
-- runs the pipeline of renderers that write and apply the system's files. A commit may be made on
-- condition that it is confirmed in time; if it is not, a task puts the previous configuration back.
--
-- Paths below are from the root of the repository.
--
-- Schema.Path, Schema.ValueSet, Schema.Entries, Schema.Config: src/nightshade-schema/src/path.rs and
--   config.rs. A BTreeMap and a BTreeSet are lists in the order of their keys. An edit through a
--   mutable reference returns the new tree beside its result, also where it fails. Schema.Config.Edits
--   and Schema.Config.Leaves are about the edits.
-- Schema.Diff: src/nightshade-schema/src/diff.rs, the changes between two trees. Diff.Lines reads the
--   lines of a tree off its nodes, and Diff.Order has the orders written out.
-- Schema.Lex: src/nightshade-schema/src/lex.rs. The lexer is the text that is left and the position of
--   its first character; the loop of `string` runs on fuel, one turn for each character that is left and
--   one more, and each turn takes a character, so that this is enough.
-- Schema.PathText: how a path is typed and printed, of path.rs. The loop over tokens runs on fuel, one
--   turn for each character and one more; a token takes a character at least.
-- Schema.Value, Schema.Value.Names, Schema.Value.Address: src/nightshade-schema/src/value.rs. The
--   parsers of addresses are those of the standard library. A regular expression, the time zones of
--   the system and the debug form of a text are parameters.
-- Schema.Model, Schema.Model.Completion: src/nightshade-schema/src/model.rs. The fields of a node that
--   hold no nodes are the record Traits.
-- Schema.Validate: src/nightshade-schema/src/validate.rs. Validate.Setting has one set or delete and
--   the defaults, Validate.Types the structure and the types, Validate.Expand the patterns of
--   constraints, Validate.Cross and Validate.Global the constraints. A function that pushes on a list
--   returns what it pushes. Validate.Fits, Keeps, Sets, Valid, Found, Removal and Deletes are proofs.
-- Schema.Curly.Parse, Schema.Curly.Render: src/nightshade-schema/src/curly.rs. The loop of `body` runs
--   on fuel, one turn for each character of the text and one more; a turn takes a token. Lex.Progress,
--   PathText.Fuel and Curly.Fuel, Readers and Ends have the lemmas on it.
-- Schema.Wording: the texts of the errors of these files.
-- Configd.Commit: src/nightshade-configd/src/commit.rs and the trait Renderer of
--   src/nightshade-render/src/artifacts.rs. A renderer is a record of its methods over a machine state.
--   Commit.Logging has renderers that log their calls, and Commit.Trace drives the pipeline with them.
-- Configd.Archive: src/nightshade-configd/src/archive.rs. The directory is the list of its revisions.
-- Configd.Model: the data of src/nightshade-configd/src/state.rs, session.rs, confirm.rs and peer.rs and
--   of src/nightshade-proto/src/message.rs. What the environment answers during a request, which writes
--   work, the clock and the random bytes, is the record Env.
-- Configd.Sessions, Configd.Steps, Configd.Committing, Configd.Lifecycle, Configd.System: state.rs, each
--   handler as a function from the daemon to the daemon and its answer. A handler holds the lock for all
--   of its run, so that requests and the rollback task are steps in some order; Configd.System has that
--   relation. The timer is kept as the seconds that it was armed with, and wakes at any time after.
-- Configd.Boot: src/nightshade-configd/src/boot.rs, with the file of the boot failure beside the daemon.
-- Configd.Schemas: the record SchemaOps filled by the schema's own operations.
-- Render.Ini: src/nightshade-render/src/ini.rs. Ini.Sections has what a sequence of calls means.
-- Proto.Frame, Proto.SessionId: src/nightshade-proto/src/frame.rs and message/session_id.rs. A stream is
--   the list of its bytes, and the two directions of CBOR are arguments.
-- Shared: results, texts as code points, association lists, sorting and tests that all parts use.
-- Tests: examples at concrete configurations and daemons.
--
-- The daemon is modelled over the record SchemaOps of what it asks of the schema: validation, edits,
-- priorities and the text form; Configd.Schemas joins the two. The walk up a path for a priority takes as many steps as the path has segments, which
-- reaches the root. Generations and times are natural numbers without a bound: 64 bits are not reached
-- one commit at a time. Messages to operators are a constructor each over what they name.
--
-- Not modelled: the loader of the schema, which reads YAML at build time, the socket, JSON and gzip, what
-- the renderers write, the interface collector (OpShow), the command line and the installer.
pub mod Configd
pub mod Proto
pub mod Render
pub mod Schema
pub mod Shared
pub mod Tests
