-- ===== src/Configd/Model.antt =====
-- The data of src/nightshade-configd/src/{peer,session,confirm,state}.rs and
-- src/nightshade-proto/src/message.rs.
use nightshade.Shared.{ℕ, List, Bool, Option}
use nightshade.Shared.Text.{Text}
use nightshade.Schema.Path.{ConfigPath}
use nightshade.Schema.Config.{ConfigTree}
use nightshade.Schema.Diff.{Change}
use nightshade.Configd.Archive.{Archive, RevisionInfo}
use nightshade.Schema.Validate.{Violation}
use nightshade.Configd.Commit.{CommitError}

pub record Actor : Type 0 where
  pub uid : ℕ
  pub username : Text

pub record Session : Type 0 where
  pub id : Text
  pub uid : ℕ
  pub username : Text
  pub candidate : ConfigTree
  pub base_generation : ℕ

-- Times are unix seconds.
pub record Pending : Type 0 where
  pub deadline : ℕ
  pub minutes : ℕ
  pub session : Text
  pub actor_uid : ℕ
  pub actor : Text
  pub comment : Option Text
  pub previous : ConfigTree
  pub previous_generation : ℕ
  pub committed : ConfigTree
  pub generation : ℕ

-- The state behind the lock. `timer` is the seconds that the rollback task was armed with.
pub record State : Type 0 where
  pub running : ConfigTree
  pub generation : ℕ
  pub history : List (ℕ × ConfigTree)
  pub sessions : List (Text × Session)
  pub pending : Option Pending
  pub timer : Option ℕ

pub data MarkerFile : Type 0 where
  absent damaged : MarkerFile
  holds : Pending → MarkerFile

-- The files: `running.json`, `pending-confirm.json` and the session files under /run, the archive,
-- and `config.boot`. A JSON file that is written whole reads back as the value written.
pub record Disk : Type 0 where
  pub running_file : Option (ℕ × ConfigTree)
  pub marker : MarkerFile
  pub session_files : List (Text × Session)
  pub archive : Archive
  pub config_boot : Option Text

-- The daemon: its state, its files, and the machine that the renderers act on.
pub record Configd (W : Type 0) : Type 0 where
  pub state : State
  pub disk : Disk
  pub machine : W

-- What the environment answers during one request: which writes work, the clock when it is read
-- first and when it is read again, a stamp for the archive, and the random bytes of an id as its
-- digits.
pub record Env : Type 0 where
  pub saves_running : Bool
  pub saves_session : Bool
  pub forgets_session : Bool
  pub arms_marker : Bool
  pub disarms_marker : Bool
  pub writes_archive : Bool
  pub reads_archive : Bool
  pub writes_boot : Bool
  pub reads_boot : Bool
  pub now : ℕ
  pub now_again : ℕ
  pub stamp : Text
  pub random_id : Option Text

pub data LoadSource : Type 0 where
  saved : LoadSource
  archived : ℕ → LoadSource

-- `OpShow` is not modelled: it asks the interface collector.
pub data Request : Type 0 where
  session_open : Request
  session_close : Text → Request
  set delete : Text → ConfigPath → Option Text → Request
  show_candidate : Text → ConfigPath → Request
  show_running show_saved : ConfigPath → Request
  compare discard confirm : Text → Request
  commit : Text → Option Text → Option ℕ → Request
  save : Request
  load : Text → LoadSource → Request
  commit_log : Request
  shell_session : Bool → Request

pub data FailureKind : Type 0 where
  request validation conflict internal : FailureKind

-- What a failure says: a constructor for each message, over what the message names.
pub data Message : Type 0 where
  belongs_to : Text → Text → Message
  never_opened : Text → Message
  still_pending : Text → ℕ → ℕ → Message
  has_changed : ℕ → ℕ → Option (List Change) → List Change → Message
  not_valid : List Violation → Message
  refused_edit : Text → Message
  not_applied : CommitError → Message
  marker_not_armed nothing_pending nothing_saved : Message
  does_not_parse : Text → Message
  no_revision : ℕ → Message
  revision_damaged : ℕ → Text → Message
  io_failed : Message

pub data Response : Type 0 where
  done : Response
  session : Text → Response
  config : ConfigTree → Response
  changes : List Change → Response
  committed : ℕ → List Change → Option ℕ → Response
  revisions : List RevisionInfo → Response
  failed : FailureKind → Message → Response
