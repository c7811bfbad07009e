-- ===== src/Configd/Steps/Effects.antt =====
-- src/nightshade-configd/src/state.rs: what the steps leave of the daemon's state.
use nightshade.Shared.{ℕ, ◌+◌, ◌≤◌, List, [], ◌∷◌, ◌++◌, Option, ◌≡◌, refl, arith, length}
use nightshade.Shared.Text.{Text}
use nightshade.Schema.Config.{ConfigTree}
use nightshade.Schema.Diff.{Change}
use nightshade.Configd.Commit.{SchemaOps}
use nightshade.Configd.Model.{Actor, State, Configd, Env}
use nightshade.Configd.Steps.{trim, promote, save_running, record_revision, disarm, last_config}

pub length-trim : (l : List (ℕ × ConfigTree)) → length (trim l) ≤ 8
unfolding trim
length-trim [] = omega arith
length-trim (x ∷ xs) = ground (arith, length-trim xs)

last_config-snoc :
    (l : List (ℕ × ConfigTree)) (g : ℕ) (c : ConfigTree) → last_config (l ++ (g, c) ∷ []) ≡ c
unfolding last_config
last_config-snoc [] g c = refl
last_config-snoc (x ∷ []) g c = refl
last_config-snoc (x ∷ y ∷ xs) g c = last_config-snoc (y ∷ xs) g c

pub last_config-trim :
    (l : List (ℕ × ConfigTree)) (g : ℕ) (c : ConfigTree) → last_config (trim (l ++ (g, c) ∷ [])) ≡ c
unfolding trim
last_config-trim [] g c = last_config-snoc [] g c
last_config-trim (x ∷ xs) g c =
    ground (arith, last_config-trim xs g c, last_config-snoc (x ∷ xs) g c)

-- The state once a candidate has become running.
abbrev pub promoted : ConfigTree → State → State
promoted c s = record s {
  running = c;
  generation = s.generation + 1;
  history = trim (s.history ++ (s.generation, s.running) ∷ []);
}

module _ {W : Type 0} where
  pub save_running-state : (env : Env) (d : Configd W) → (save_running env d).state ≡ d.state
  unfolding save_running
  save_running-state env d = ground arith

  pub save_running-machine : (env : Env) (d : Configd W) → (save_running env d).machine ≡ d.machine
  unfolding save_running
  save_running-machine env d = ground arith

  pub record_revision-state :
      (schema : SchemaOps) (env : Env) (c : ConfigTree) (actor : Actor) (comment : Option Text)
      (revision : ℕ) (changes : List Change) (d : Configd W)
      → (record_revision schema env c actor comment revision changes d).state ≡ d.state
  unfolding record_revision
  record_revision-state schema env c actor comment revision changes d = ground arith

  pub record_revision-machine :
      (schema : SchemaOps) (env : Env) (c : ConfigTree) (actor : Actor) (comment : Option Text)
      (revision : ℕ) (changes : List Change) (d : Configd W)
      → (record_revision schema env c actor comment revision changes d).machine ≡ d.machine
  unfolding record_revision
  record_revision-machine schema env c actor comment revision changes d = ground arith

  pub disarm-state : (env : Env) (d : Configd W) → (disarm env d).state ≡ d.state
  unfolding disarm
  disarm-state env d = ground arith

  pub promote-state :
      (env : Env) (c : ConfigTree) (d : Configd W) → (promote env c d).state ≡ promoted c d.state
  unfolding promote
  promote-state env c d = save_running-state env (record d { state = promoted c d.state })

  pub promote-machine :
      (env : Env) (c : ConfigTree) (d : Configd W) → (promote env c d).machine ≡ d.machine
  unfolding promote
  promote-machine env c d = save_running-machine env (record d { state = promoted c d.state })
