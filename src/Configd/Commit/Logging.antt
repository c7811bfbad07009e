-- ===== src/Configd/Commit/Logging.antt =====
-- Subsystems for src/nightshade-configd/src/commit.rs to drive, whose renderers log what they are
-- asked. The machine is the list of the calls made, the last one first.
use nightshade.Shared.{List, [], ◌∷◌, ◌++◌, map, Bool, false, Option, none, some, if◌then◌else◌}
use nightshade.Shared.Text.{Text, codes}
use nightshade.Shared.Result.{ok, err}
use nightshade.Configd.Commit.{Renderer, Done, CommitError, unrecovered, join, applied}

-- What a subsystem was handed: the new state of a commit, or the state to go back to.
pub data Target : Type 0 where
  next before : Target

pub data Call : Type 0 where
  applied_to remembered : Text → Target → Call

abbrev pub Log : Type 0
Log = List Call

-- A subsystem: whether it has never applied anything, and what it says if it cannot be put back.
pub record Subsystem : Type 0 where
  pub name : Text
  pub fresh : Bool
  pub stuck : Option Text

-- One that has applied something before, and can be put back.
abbrev pub plain : Text → Subsystem
plain name = record { name = name; fresh = false; stuck = none }

-- A call that succeeds, or fails with a message.
abbrev pub answer : Option Text → Done
answer none = ok tt
answer (some e) = err e

-- The renderer of a subsystem. `failure` is what it says of the new state, if it cannot apply it.
abbrev pub logging : (failure : Option Text) → Subsystem → Renderer Log Target
logging failure s = record {
  name = s.name;
  render = λ _. ok next;
  check = λ _. ok tt;
  apply = λ a w.
      ((elim a [ next ↦ answer failure | before ↦ answer s.stuck ]), applied_to s.name a ∷ w);
  verify = λ _ _. ok tt;
  previous = λ _. if s.fresh then none else some before;
  remember = λ a w. (ok tt, remembered s.name a ∷ w);
}

abbrev pub working : List Subsystem → List (Renderer Log Target)
working = map (logging none)

abbrev pub calls : List Subsystem → Log
calls [] = []
calls (s ∷ ss) = applied_to s.name next ∷ calls ss

-- The calls that put subsystems back; one that has never applied anything gets none.
abbrev pub undone : List Subsystem → Log
undone [] = []
undone (s ∷ ss) = if s.fresh then undone ss else applied_to s.name before ∷ undone ss

-- What the subsystems that cannot be put back say.
abbrev pub troubles : List Subsystem → List Text
troubles [] = []
troubles (s ∷ ss) =
    if s.fresh
    then troubles ss
    else elim s.stuck [ none ↦ troubles ss | some e ↦ (s.name ++ (codes ": " ++ e)) ∷ troubles ss ]

abbrev pub noted : List Subsystem → Log
noted [] = []
noted (s ∷ ss) = remembered s.name next ∷ noted ss

-- The failure of a subsystem, and of those that could not be put back after it.
abbrev pub failure_of : Text → Text → List Text → CommitError
failure_of bad failure [] = applied bad failure
failure_of bad failure (t ∷ ts) = unrecovered bad failure (join (t ∷ ts))
