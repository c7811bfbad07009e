-- ===== src/Configd/Sessions/Ownership.antt =====
-- Who may use a session: src/nightshade-configd/src/state.rs, `owned`.
use nightshade.Shared.{Option, none, some, ◌≡◌, ◌≢◌, refl, arith, Option-cases, inl, inr}
use nightshade.Shared.Text.{Text}
use nightshade.Shared.Assoc.{lookup}
use nightshade.Shared.Result.{Result, ok, err}
use nightshade.Configd.Model.{
  Actor, Session, State, Configd, Response, failed, request, belongs_to, never_opened,
}
use nightshade.Configd.Sessions.{owned, with_session}

-- A session is given out exactly to the uid that opened it.
pub owned-eq-ok :
    (state : State) (id : Text) (actor : Actor) (s : Session)
    → owned state id actor ≡ ok s
    → (lookup id state.sessions ≡ some s) × (s.uid ≡ actor.uid)
unfolding owned
owned-eq-ok state id actor s h = elim (Option-cases (lookup id state.sessions)) [
  | inl gone ↦ ground (arith, gone)
  | inr (x, there) ↦ ground (arith, there)
]

pub owned-eq :
    (state : State) (id : Text) (actor : Actor) (s : Session)
    → lookup id state.sessions ≡ some s
    → s.uid ≡ actor.uid
    → owned state id actor ≡ ok s
unfolding owned
owned-eq state id actor s found own = ground (arith, found, own)

pub with_session-eq :
    {W : Type 0} (id : Text) (actor : Actor) (next : Session → Configd W → Configd W × Response)
    (d : Configd W) (s : Session)
    → lookup id d.state.sessions ≡ some s
    → s.uid ≡ actor.uid
    → with_session id actor next d ≡ next s d
unfolding with_session
with_session-eq id actor next d s found own =
    rw (owned-eq d.state id actor s found own, with_session)

-- An actor who does not own the session of an id.
abbrev pub IsStranger : State → Text → Actor → Type 0
IsStranger state id actor = (s : Session) → lookup id state.sessions ≡ some s → s.uid ≢ actor.uid

abbrev pub refusal : Text → Option Session → Response
refusal id none = failed request (never_opened id)
refusal id (some s) = failed request (belongs_to id s.username)

module _ {W : Type 0} where
  -- A handler of a session that is not the actor's changes nothing, and says which it is.
  pub with_session-stranger :
      (id : Text) (actor : Actor) (next : Session → Configd W → Configd W × Response)
      (d : Configd W)
      → IsStranger d.state id actor
      → with_session id actor next d ≡ (d, refusal id (lookup id d.state.sessions))
  unfolding with_session owned
  with_session-stranger id actor next d h = elim (Option-cases (lookup id d.state.sessions)) [
    | inl gone ↦ ground (arith, gone)
    | inr (x, there) ↦ ground (arith, there, h x there)
  ]

  -- What a handler keeps if it keeps it for the session that it is given.
  pub with_session-keeps {ℓ} :
      (P : Configd W → Type ℓ) (id : Text) (actor : Actor)
      (next : Session → Configd W → Configd W × Response) (d : Configd W)
      → P d
      → ((s : Session) → lookup id d.state.sessions ≡ some s → s.uid ≡ actor.uid → P (next s d).0)
      → P (with_session id actor next d).0
  unfolding with_session
  with_session-keeps P id actor next d p k = go (owned d.state id actor) refl
    where
      go :
          (r : Result Response Session)
          → owned d.state id actor ≡ r
          → P
              (elim r as (λ _. Configd W × Response) [
                | err answer ↦ (d, answer)
                | ok s ↦ next s d
              ]).0
      go (err e) h = p
      go (ok s) h = let found = owned-eq-ok d.state id actor s h in k s found.0 found.1
