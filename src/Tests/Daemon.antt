-- ===== src/Tests/Daemon.antt =====
-- Examples of commits, confirmations, restarts and the archive.
use nightshade.Shared.{
  List, [], ◌∷◌, ◌++◌, false, none, some, ◌∙◌, ◌≡◌, refl, ap, is_nil, inr, arith,
}
use nightshade.Shared.Text.{codes, text_eq, text_compare}
use nightshade.Shared.Assoc.{lookup, insert}
use nightshade.Shared.Sort.{sort_by}
use nightshade.Shared.Result.{ok}
use nightshade.Schema.Diff.{diff, changes_between, keep_changes, difference, lines, change_compare}
use nightshade.Configd.Commit
use nightshade.Configd.Commit.{Renderer, applied}
use nightshade.Configd.Commit.Logging.{Log, Target, working, logging, plain}
use nightshade.Configd.Model.{
  Configd, State, Disk, Env, Request, Response, Message, Pending, committed, holds, failed,
  internal, conflict, not_applied, Session, absent,
}
use nightshade.Configd.Committing.{commit}
use nightshade.Configd.Committing.Landing.{
  landed, window, commit-landed, commit-waits, commit-roll_back,
}
use nightshade.Configd.Committing.Outcome.{commit-failed, commit-conflict}
use nightshade.Configd.Lifecycle.{roll_back, confirm}
use nightshade.Configd.System.Confirmed.{confirm-roll_back}
use nightshade.Configd.System.{handle, handled, woken, here, next}
use nightshade.Configd.System.Coherent.{IsCoherent}
use nightshade.Configd.System.Coherence.{Reach-IsCoherent}
use nightshade.Configd.System.Isolation.{RunsAs, handle-RunsAs}
use nightshade.Configd.System.Strangers.{handle-stranger}
use nightshade.Configd.Sessions.Ownership.{IsStranger, refusal}
use nightshade.Schema.Config.{new, is_empty}
use nightshade.Configd.Boot
use nightshade.Configd.Boot.{boot}
use nightshade.Tests.{schema, alice, bob, sid, env, edited, idle, idle_state, named, empty_disk}

abbrev pub rs : List (Renderer Log Target)
rs = working (plain (codes "net") ∷ plain (codes "host") ∷ [])

abbrev machine1 : Log
machine1 = (Commit.apply rs edited.candidate []).1

abbrev machine2 : Log
machine2 = (Commit.apply rs idle.state.running machine1).1

found : lookup sid idle.state.sessions ≡ some edited
unfolding lookup text_eq
found = refl

valid : Commit.validate schema edited.candidate ≡ ok tt
unfolding Commit.validate
valid = refl

some_changes : is_nil (Commit.order schema (diff idle.state.running edited.candidate)) ≡ false
unfolding Commit.order diff sort_by changes_between keep_changes difference lines text_eq
    change_compare text_compare Commit.order_compare Commit.priority
some_changes = refl

works : Commit.apply rs edited.candidate [] ≡ (ok tt, machine1)
unfolding Commit.apply Commit.prepare Commit.render_all Commit.check_all Commit.apply_plan
    Commit.apply_all Commit.apply_one
works = refl

back : Commit.apply rs idle.state.running machine1 ≡ (ok tt, machine2)
unfolding Commit.apply Commit.prepare Commit.render_all Commit.check_all Commit.apply_plan
    Commit.apply_all Commit.apply_one
back = refl

commit-landed_example :
    ((commit schema rs env sid alice none none idle).0.state ≡ landed sid edited idle.state)
    × ((commit schema rs env sid alice none none idle).0.machine ≡ machine1)
    × ((commit schema rs env sid alice none none idle).1
        ≡ committed 4 (Commit.order schema (diff idle.state.running edited.candidate)) none)
commit-landed_example =
    commit-landed schema rs env sid alice none idle edited machine1 found refl refl refl valid
      some_changes works

abbrev waiting : Configd Log
waiting = (commit schema rs env sid alice none (some 5) idle).0

abbrev pending : Pending
pending = window env sid alice none 5 edited idle.state

commit-waits_example :
    (waiting.state
      ≡ record (landed sid edited idle.state) { pending = some pending; timer = some 299 })
    × (waiting.machine ≡ machine1)
    × (waiting.disk.marker ≡ holds pending)
    × (waiting.disk.archive ≡ [])
commit-waits_example =
    commit-waits schema rs env sid alice none idle edited machine1 found refl refl refl valid
      some_changes works 5 refl

commit-roll_back_example :
    ((roll_back schema rs env waiting).state ≡ record (landed sid edited idle.state) {
      running = named (codes "r1");
      generation = 5;
      pending = none;
      timer = none;
    })
    × ((roll_back schema rs env waiting).machine ≡ machine2)
    × ((roll_back schema rs env waiting).disk.archive ≡ [])
commit-roll_back_example =
    commit-roll_back schema rs env sid alice none idle edited machine1 found refl refl refl valid
      some_changes works 5 refl env machine2 back

-- The last subsystem cannot apply the candidate.
abbrev broken : List (Renderer Log Target)
broken =
    working (plain (codes "net") ∷ []) ++ logging (some (codes "no")) (plain (codes "host")) ∷ []

abbrev broken_commit : Configd Log × Response
broken_commit = commit schema broken env sid alice none none idle

broken_answer :
    broken_commit.1 ≡ failed internal (not_applied (applied (codes "host") (codes "no")))
unfolding commit nightshade.Configd.Sessions.owned lookup text_eq Commit.order sort_by diff
    changes_between keep_changes difference lines change_compare text_compare Commit.order_compare
    Commit.priority Commit.apply Commit.prepare Commit.render_all Commit.apply_all Commit.apply_one
    Commit.apply_plan Commit.check_all Commit.fail_apply Commit.join Commit.restore
    Commit.restore_from Commit.restore_one
broken_answer = refl

commit-failed_example : (broken_commit.0.state ≡ idle.state) × (broken_commit.0.disk ≡ idle.disk)
commit-failed_example =
    commit-failed schema broken env sid alice none none idle internal
      (not_applied (applied (codes "host") (codes "no"))) broken_answer cc

-- A session that running has moved away from.
abbrev moved : Configd Log
moved = record idle { state = record idle.state { generation = 4 } }

commit-conflict_example :
    (m : Message) × (commit schema rs env sid alice none none moved ≡ (moved, failed conflict m))
commit-conflict_example =
    commit-conflict schema rs env sid alice none none moved edited found refl (inr (omega arith))

-- What is on disk when a machine stops in the middle of a window, found again after its end.
abbrev left_behind : Disk
left_behind = record empty_disk {
  running_file = some (4, named (codes "r2"));
  marker = holds pending;
}

abbrev late : Env
late = record env { now = 2000 }

idle-IsCoherent : IsCoherent idle.state
unfolding lookup
idle-IsCoherent = record {
  bases = λ id x e. ground (arith, e);
  window = λ p e. ground (arith, e);
  idle = λ e. refl;
  recent = omega arith;
}

abbrev requested : Configd Log
requested = (handle schema rs env (Request.commit sid none (some 5)) alice idle).0

requested-timer : requested.state.timer ≡ some 299
unfolding handle
requested-timer = ap (λ (s : State). s.timer) commit-waits_example.0

Reach-IsCoherent_example : IsCoherent (roll_back schema rs env requested).state
Reach-IsCoherent_example =
    Reach-IsCoherent schema rs idle (roll_back schema rs env requested)
      (next (next here (handled env (Request.commit sid none (some 5)) alice refl))
        (woken env 299 requested-timer refl))
      idle-IsCoherent

-- The session that committed, level with what runs.
abbrev levelled : Session
levelled = record edited { base_generation = 4 }

waiting-IsCoherent : IsCoherent waiting.state
unfolding handle
waiting-IsCoherent =
    Reach-IsCoherent schema rs idle waiting
      (next here (handled env (Request.commit sid none (some 5)) alice refl)) idle-IsCoherent

levelled_found : lookup sid (landed sid edited idle.state).sessions ≡ some levelled
unfolding lookup insert text_eq
levelled_found = refl

found_levelled : lookup sid waiting.state.sessions ≡ some levelled
unfolding lookup insert text_eq
found_levelled = ap (λ (s : State). lookup sid s.sessions) commit-waits_example.0 ∙ levelled_found

waiting-pending : waiting.state.pending ≡ some pending
waiting-pending = ap (λ (s : State). s.pending) commit-waits_example.0

confirm-roll_back_example :
    ((confirm schema rs env sid alice waiting).0.state ≡ record waiting.state {
      running = named (codes "r2");
      generation = 4;
      pending = none;
      timer = none;
    })
    × ((confirm schema rs env sid alice waiting).0.machine ≡ waiting.machine)
    × ((confirm schema rs env sid alice waiting).0.disk.marker ≡ absent)
    × ((confirm schema rs env sid alice waiting).1
        ≡ committed 4 (Commit.order schema (diff (named (codes "r1")) (named (codes "r2")))) none)
    × (roll_back schema rs env (confirm schema rs env sid alice waiting).0
        ≡ (confirm schema rs env sid alice waiting).0)
confirm-roll_back_example =
    confirm-roll_back schema rs env env sid alice waiting levelled pending waiting-IsCoherent
      found_levelled refl waiting-pending

bob-IsStranger : IsStranger idle.state sid bob
unfolding lookup text_eq
bob-IsStranger s e = ground (arith, e)

handle-stranger_example :
    handle schema rs env (Request.confirm sid) bob idle ≡ (idle, refusal sid (some edited))
unfolding lookup text_eq
handle-stranger_example =
    handle-stranger schema rs env (Request.confirm sid) bob idle sid refl bob-IsStranger

handle-RunsAs_example : RunsAs idle (handle schema rs env (Request.discard sid) alice idle).0
handle-RunsAs_example = handle-RunsAs schema rs env (Request.discard sid) alice idle refl

-- A daemon that finds a saved configuration and nothing that runs.
abbrev powered_on : Configd Log
powered_on = record {
  state = record idle_state { running = new; generation = 0; sessions = [] };
  disk = record empty_disk { config_boot = some [] };
  machine = [];
}

boot_applied : (boot schema rs env none powered_on).outcome ≡ Boot.applied 1
unfolding boot is_empty Commit.prepare Commit.render_all Commit.check_all Commit.apply_plan
    Commit.apply_all Commit.apply_one diff sort_by changes_between keep_changes difference lines
boot_applied = refl
