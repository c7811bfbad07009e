-- ===== src/Configd/System.antt =====
-- src/nightshade-configd/src/state.rs: `handle`, and the daemon as it runs: requests in the order in
-- which they get the lock, and the rollback task when its time comes.
pub mod Coherent
pub mod Coherence
pub mod Confirmed
pub mod Valid
pub mod Validity
pub mod Isolation
pub mod Strangers
use nightshade.Shared.{List, Bool, Option, some, ◌≡◌, ℕ, map}
use nightshade.Schema.Config.{ConfigTree}
use nightshade.Configd.Archive
use nightshade.Configd.Archive.{Stored}
use nightshade.Configd.Commit.{SchemaOps, Renderer}
use nightshade.Configd.Model
use nightshade.Configd.Model.{Actor, Configd, Env, Request, Response, done, failed, revisions}
use nightshade.Configd.Sessions
use nightshade.Configd.Sessions.{io_failure}
use nightshade.Configd.Committing
use nightshade.Configd.Lifecycle
use nightshade.Shared.{if◌then◌else◌}

module _ {W : Type 0} where
  unfoldable pub commit_log : Env → Configd W → Configd W × Response
  unfolding Archive.list
  commit_log env d =
      if env.reads_archive
      then (d, revisions (map (λ (s : Stored). s.info) (Archive.list d.disk.archive)))
      else (d, io_failure)

  -- Whether a shell may be had is decided here, and the answer is yes; it is logged.
  unfoldable pub shell_session : Bool → Actor → Configd W → Configd W × Response
  shell_session entering actor d = (d, done)

module _ {W A : Type 0} (schema : SchemaOps) (renderers : List (Renderer W A)) where
  unfoldable pub handle : Env → Request → Actor → Configd W → Configd W × Response
  unfolding Sessions.open_session Sessions.close Sessions.set Sessions.delete
      Sessions.show_candidate Sessions.show_running Sessions.show_saved Sessions.compare
      Sessions.discard Sessions.save Sessions.load Committing.commit Lifecycle.confirm commit_log
      shell_session
  handle env Request.session_open actor = Sessions.open_session env actor
  handle env (Request.session_close id) actor = Sessions.close env id actor
  handle env (Request.set id path value) actor = Sessions.set schema env id actor path value
  handle env (Request.delete id path value) actor = Sessions.delete schema env id actor path value
  handle env (Request.show_candidate id path) actor = Sessions.show_candidate id actor path
  handle env (Request.show_running path) actor = Sessions.show_running path
  handle env (Request.show_saved path) actor = Sessions.show_saved schema env path
  handle env (Request.compare id) actor = Sessions.compare id actor
  handle env (Request.discard id) actor = Sessions.discard env id actor
  handle env (Request.commit id comment minutes) actor =
      Committing.commit schema renderers env id actor comment minutes
  handle env (Request.confirm id) actor = Lifecycle.confirm schema renderers env id actor
  handle env Request.save actor = Sessions.save schema env
  handle env (Request.load id source) actor = Sessions.load schema env id actor source
  handle env Request.commit_log actor = commit_log env
  handle env (Request.shell_session entering) actor = shell_session entering actor

  -- A request is handled, or the rollback task that is armed wakes up.
  pub data Step : Configd W → Configd W → Type 0 where
    handled :
        {d e : Configd W} (env : Env) (request : Request) (actor : Actor)
        → (handle env request actor d).0 ≡ e
        → Step d e
    woken :
        {d e : Configd W} (env : Env) (seconds : ℕ)
        → d.state.timer ≡ some seconds
        → Lifecycle.roll_back schema renderers env d ≡ e
        → Step d e

  pub data Reach (d : Configd W) : Configd W → Type 0 where
    here : Reach d d
    next : {e f : Configd W} → Reach d e → Step e f → Reach d f
