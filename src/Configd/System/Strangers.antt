-- ===== src/Configd/System/Strangers.antt =====
-- src/nightshade-configd/src/state.rs, `handle`: requests for a session of somebody else.
use nightshade.Shared.{List, Option, none, some, ◌≡◌}
use nightshade.Shared.Text.{Text}
use nightshade.Shared.Assoc.{lookup}
use nightshade.Configd.Commit.{SchemaOps, Renderer}
use nightshade.Configd.Model.{Actor, Session, Configd, Env, Request, Response}
use nightshade.Configd.Sessions
use nightshade.Configd.Sessions.{with_session}
use nightshade.Configd.Sessions.Ownership.{IsStranger, refusal, with_session-stranger}
use nightshade.Configd.Committing
use nightshade.Configd.Lifecycle
use nightshade.Configd.System.{handle}

-- The session that a request names.
abbrev pub session_named : Request → Option Text
session_named (Request.session_close id) = some id
session_named (Request.set id path value) = some id
session_named (Request.delete id path value) = some id
session_named (Request.show_candidate id path) = some id
session_named (Request.compare id) = some id
session_named (Request.discard id) = some id
session_named (Request.commit id comment minutes) = some id
session_named (Request.confirm id) = some id
session_named (Request.load id source) = some id
session_named _ = none

refused :
    {W : Type 0} (i id : Text) (actor : Actor) (next : Session → Configd W → Configd W × Response)
    (d : Configd W)
    → some i ≡ some id
    → IsStranger d.state id actor
    → with_session i actor next d ≡ (d, refusal id (lookup id d.state.sessions))
refused i id actor next d h k =
    let same : i ≡ id = cc in rw same (with_session-stranger id actor next d k)

module _ {W A : Type 0} (schema : SchemaOps) (rs : List (Renderer W A)) where
  -- A request on a session that its sender did not open, or that is not there, changes nothing,
  -- whichever request it is, and the answer says which of the two it is.
  pub handle-stranger :
      (env : Env) (r : Request) (actor : Actor) (d : Configd W) (id : Text)
      → session_named r ≡ some id
      → IsStranger d.state id actor
      → handle schema rs env r actor d ≡ (d, refusal id (lookup id d.state.sessions))
  unfolding handle Sessions.close Sessions.set Sessions.delete Sessions.show_candidate
      Sessions.compare Sessions.discard Sessions.load Committing.commit Lifecycle.confirm
  handle-stranger env (Request.session_close i) actor d id h k =
      refused i id actor (Sessions.close_owned env i) d h k
  handle-stranger env (Request.set i path value) actor d id h k =
      refused i id actor (Sessions.edit_owned (λ t. schema.apply_set t path value) env i) d h k
  handle-stranger env (Request.delete i path value) actor d id h k =
      refused i id actor (Sessions.edit_owned (λ t. schema.apply_delete t path value) env i) d h k
  handle-stranger env (Request.show_candidate i path) actor d id h k =
      refused i id actor (Sessions.show_owned path) d h k
  handle-stranger env (Request.compare i) actor d id h k =
      refused i id actor Sessions.compare_owned d h k
  handle-stranger env (Request.discard i) actor d id h k =
      refused i id actor (Sessions.discard_owned env i) d h k
  handle-stranger env (Request.commit i comment minutes) actor d id h k =
      refused i id actor (Committing.commit_owned schema rs env i actor comment minutes) d h k
  handle-stranger env (Request.confirm i) actor d id h k =
      refused i id actor (Lifecycle.confirm_owned schema rs env actor) d h k
  handle-stranger env (Request.load i source) actor d id h k =
      refused i id actor (Sessions.load_owned schema env i source) d h k
  handle-stranger env Request.session_open actor d id h k = cc
  handle-stranger env (Request.show_running path) actor d id h k = cc
  handle-stranger env (Request.show_saved path) actor d id h k = cc
  handle-stranger env Request.save actor d id h k = cc
  handle-stranger env Request.commit_log actor d id h k = cc
  handle-stranger env (Request.shell_session entering) actor d id h k = cc
