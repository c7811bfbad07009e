-- ===== src/Tests.antt =====
-- Small configurations, a schema and a daemon that the examples run on.
pub mod Daemon
pub mod Render
pub mod Schema
pub mod Pipeline
pub mod Trees
pub mod Wire
use nightshade.Shared.{ℕ, List, [], ◌∷◌, Bool, true, false, Option, none, some, ◌≡◌, refl}
use nightshade.Shared.Text.{Text, codes}
use nightshade.Shared.Result.{ok, err}
use nightshade.Schema.Path.{ConfigPath}
use nightshade.Schema.Entries.{node, values, nil, entry}
use nightshade.Schema.Config.{ConfigTree, from_children, new}
use nightshade.Configd.Archive.{Stored, RevisionInfo}
use nightshade.Configd.Commit.{SchemaOps}
use nightshade.Configd.Commit.Logging.{Log}
use nightshade.Configd.Model.{Actor, Session, State, Disk, Configd, Env, absent}

abbrev pub host_path : ConfigPath
host_path = codes "host" ∷ []

abbrev pub zone_path : ConfigPath
zone_path = codes "zone" ∷ []

abbrev pub named : Text → ConfigTree
named name = from_children (entry (codes "host") (node none (values (name ∷ []))) nil)

-- A schema that takes everything; its text form is one fixed text.
abbrev pub schema : SchemaOps
schema = record {
  validate_tree = λ _. [];
  check_constraints = λ _. [];
  apply_set = λ t _ _. ok t;
  apply_delete = λ t _ _. ok t;
  priority_at = λ _. some 100;
  render_curly = λ _. [];
  parse_curly = λ _. ok (named (codes "r1"));
  defaults = named (codes "default");
}

abbrev pub alice : Actor
alice = record { uid = 1000; username = codes "alice" }

abbrev pub bob : Actor
bob = record { uid = 1001; username = codes "bob" }

abbrev pub sid : Text
sid = codes "s1"

abbrev pub env : Env
env = record {
  saves_running = true;
  saves_session = true;
  forgets_session = true;
  arms_marker = true;
  disarms_marker = true;
  writes_archive = true;
  reads_archive = true;
  writes_boot = true;
  reads_boot = true;
  now = 1000;
  now_again = 1001;
  stamp = codes "t";
  random_id = some sid;
}

abbrev pub edited : Session
edited = record {
  id = sid;
  uid = 1000;
  username = codes "alice";
  candidate = named (codes "r2");
  base_generation = 3;
}

abbrev pub idle_state : State
idle_state = record {
  running = named (codes "r1");
  generation = 3;
  history = [];
  sessions = (sid, edited) ∷ [];
  pending = none;
  timer = none;
}

abbrev pub empty_disk : Disk
empty_disk = record {
  running_file = none;
  marker = absent;
  session_files = [];
  archive = [];
  config_boot = none;
}

abbrev pub idle : Configd Log
idle = record { state = idle_state; disk = empty_disk; machine = [] }

abbrev pub revision : ℕ → Stored
revision n = record {
  info = record {
    revision = n;
    timestamp = codes "t";
    actor = codes "alice";
    actor_uid = 1000;
    comment = none;
    changes = [];
  };
  text = [];
}

abbrev pub revisions : ℕ → ℕ → List Stored
revisions ℕ.zero from = []
revisions (ℕ.suc n) from = revision from ∷ revisions n (ℕ.suc from)
