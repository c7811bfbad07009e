-- ===== src/Configd/System/Isolation.antt =====
-- src/nightshade-configd/src/state.rs, `handle`: what a request leaves alone.
use nightshade.Shared.{List, Bool, true, false, ◌≡◌, refl, arith}
use nightshade.Shared.Text.{Text}
use nightshade.Shared.Result.{Result}
use nightshade.Schema.Config.{ConfigTree}
use nightshade.Configd.Commit.{SchemaOps, Renderer}
use nightshade.Configd.Model
use nightshade.Configd.Model.{Actor, Session, Configd, Env, Request, Response}
use nightshade.Configd.Sessions
use nightshade.Configd.Sessions.{update_session, source_config}
use nightshade.Configd.Sessions.Ownership.{with_session-keeps}
use nightshade.Configd.Lifecycle
use nightshade.Configd.System.{handle, commit_log, shell_session}

abbrev pub is_commit : Request → Bool
is_commit (Request.commit id comment minutes) = true
is_commit _ = false

-- The same configuration runs, under the same generation, on the same machine.
abbrev pub RunsAs : {W : Type 0} → Configd W → Configd W → Type 0
RunsAs d e =
    (e.state.running ≡ d.state.running)
    × (e.state.generation ≡ d.state.generation)
    × (e.machine ≡ d.machine)

module _ {W A : Type 0} (schema : SchemaOps) (rs : List (Renderer W A)) where
  update_session-RunsAs :
      (env : Env) (id : Text) (s : Session) (d : Configd W) → RunsAs d (update_session env id s d).0
  unfolding update_session
  update_session-RunsAs env id s d = ground arith

  edit_owned-RunsAs :
      (change : ConfigTree → Result Text ConfigTree) (env : Env) (id : Text) (s : Session)
      (d : Configd W)
      → RunsAs d (Sessions.edit_owned change env id s d).0
  unfolding Sessions.edit_owned
  edit_owned-RunsAs change env id s d = ground arith

  load_owned-RunsAs :
      (env : Env) (id : Text) (source : Model.LoadSource) (s : Session) (d : Configd W)
      → RunsAs d (Sessions.load_owned schema env id source s d).0
  unfolding Sessions.load_owned
  load_owned-RunsAs env id source s d = ground arith

  open_session-RunsAs :
      (env : Env) (actor : Actor) (d : Configd W) → RunsAs d (Sessions.open_session env actor d).0
  unfolding Sessions.open_session
  open_session-RunsAs env actor d = ground arith

  close_owned-RunsAs :
      (env : Env) (id : Text) (s : Session) (d : Configd W)
      → RunsAs d (Sessions.close_owned env id s d).0
  unfolding Sessions.close_owned
  close_owned-RunsAs env id s d = ground arith

  confirm_owned-RunsAs :
      (env : Env) (actor : Actor) (s : Session) (d : Configd W)
      → RunsAs d (Lifecycle.confirm_owned schema rs env actor s d).0
  unfolding Lifecycle.confirm_owned
  confirm_owned-RunsAs env actor s d = ground arith

  session-RunsAs :
      (id : Text) (actor : Actor) (next : Session → Configd W → Configd W × Response)
      (d : Configd W)
      → ((s : Session) → RunsAs d (next s d).0)
      → RunsAs d (Sessions.with_session id actor next d).0
  session-RunsAs id actor next d k =
      with_session-keeps (RunsAs d) id actor next d (refl, refl, refl) λ s found own. k s

  -- A request that is no commit leaves the configuration that runs, its generation and the machine
  -- as they were, whoever sends it and whatever it answers.
  pub handle-RunsAs :
      (env : Env) (r : Request) (actor : Actor) (d : Configd W)
      → is_commit r ≡ false
      → RunsAs d (handle schema rs env r actor d).0
  unfolding handle Sessions.close Sessions.set Sessions.delete Sessions.show_candidate
      Sessions.show_owned Sessions.show_running Sessions.show_saved Sessions.compare
      Sessions.compare_owned Sessions.discard Sessions.discard_owned Sessions.load Sessions.save
      Lifecycle.confirm commit_log shell_session
  handle-RunsAs env Request.session_open actor d h = open_session-RunsAs env actor d
  handle-RunsAs env (Request.session_close id) actor d h =
      session-RunsAs id actor (Sessions.close_owned env id) d λ s. close_owned-RunsAs env id s d
  handle-RunsAs env (Request.set id path value) actor d h =
      let change : ConfigTree → Result Text ConfigTree = λ t. schema.apply_set t path value in
      session-RunsAs id actor (Sessions.edit_owned change env id) d
        λ s. edit_owned-RunsAs change env id s d
  handle-RunsAs env (Request.delete id path value) actor d h =
      let change : ConfigTree → Result Text ConfigTree = λ t. schema.apply_delete t path value in
      session-RunsAs id actor (Sessions.edit_owned change env id) d
        λ s. edit_owned-RunsAs change env id s d
  handle-RunsAs env (Request.show_candidate id path) actor d h =
      session-RunsAs id actor (Sessions.show_owned path) d λ s. (refl, refl, refl)
  handle-RunsAs env (Request.show_running path) actor d h = (refl, refl, refl)
  handle-RunsAs env (Request.show_saved path) actor d h = ground arith
  handle-RunsAs env (Request.compare id) actor d h =
      session-RunsAs id actor Sessions.compare_owned d λ s. (refl, refl, refl)
  handle-RunsAs env (Request.discard id) actor d h =
      session-RunsAs id actor (Sessions.discard_owned env id) d λ s.
        update_session-RunsAs env id
          (record s { candidate = d.state.running; base_generation = d.state.generation }) d
  handle-RunsAs env (Request.commit id comment minutes) actor d h = cc
  handle-RunsAs env (Request.confirm id) actor d h =
      session-RunsAs id actor (Lifecycle.confirm_owned schema rs env actor) d
        λ s. confirm_owned-RunsAs env actor s d
  handle-RunsAs env Request.save actor d h = ground arith
  handle-RunsAs env (Request.load id source) actor d h =
      session-RunsAs id actor (Sessions.load_owned schema env id source) d
        λ s. load_owned-RunsAs env id source s d
  handle-RunsAs env Request.commit_log actor d h = ground arith
  handle-RunsAs env (Request.shell_session entering) actor d h = (refl, refl, refl)
