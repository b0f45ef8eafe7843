-- ===== src/Service/Rollouts/World.antt =====
-- internal/app/rollout.go: the service's state and what it calls. The
-- stored run, the ring branches of the repository and of its remote, and the fleet document are the
-- world; `X` is the rest of it, which no method here reads but through the ports. A call to the store,
-- to the branches or to the builder can fail, as `attempt` says. What moves the fleet document is
-- `apply`, the write transaction of the configuration service. The locks are left out: a method runs
-- alone.
use sextant.Rollout.Ring.{RingStatus}
use sextant.Rollout.State.{State}
use sextant.Service.Action.{Action, Failure, ◌>>◌, gets, modify}
use sextant.Rollout.Ring.{RingStatus}
use sextant.Fleet.Model.{Fleet}
use sextant.Common.{
  err, ok, Result, ◌==◌, ◌<>◌, Time, Map, lookup, insert, ℕ, String, Bool, ◌||◌, Option, none, some,
  List, ℕ_Testable, String_Testable,
}

-- `AuditEntry`, as far as the service reads it.
pub record AuditEntry : Type 0 where
  pub hash : String
  pub author : String
  pub subject : String

pub data BuildPhase : Type 0 where
  build_building build_done build_failed : BuildPhase

pub record BuildState : Type 0 where
  pub phase : BuildPhase
  pub detail : String

-- The calls that can fail and that answer nothing but an error.
pub data Call : Type 0 where
  get_run put_run read_head read_log cancel_builds : Call
  set_branch push_branch : String → Call

pub record World (A X : Type 0) : Type 0 where
  pub fleet : Fleet A
  -- the store
  pub run : Option State
  -- the ring branches of the repository, and those of the remote, which devices follow
  pub branches : Map String
  pub remote : Map String
  pub risk_hold_notified : String
  pub outside : X

pub record Ports (A X : Type 0) : Type 0 where
  -- `some` is an error
  pub attempt : Call → X → Option Failure × X
  pub clock : X → Time × X
  pub ring_status : List String → String → X → Result Failure RingStatus × X
  -- whether `refs` and `notifier` are set, and the builder
  pub has_refs : Bool
  pub builder : Option (String → List String → X → Result Failure BuildState × X)
  pub head : X → String
  pub log : ℕ → X → List AuditEntry
  -- `Emit` of the notifier, with the title of the notification
  pub emit : String → X → X
  pub apply :
      (Fleet A → Result Failure (Fleet A))
      → String
      → List String
      → Fleet A
      → X
      → Result Failure (Unit {0}) × (Fleet A × X)
  -- `time.Time.Format`, `ports.DistillGateError`
  pub format : Time → String
  pub distill : String → String

abbrev pub engine_author_name : String
engine_author_name = "sextant-rollout"

abbrev pub agent_author_name : String
agent_author_name = "sextant-agent"

-- `isMachineAuthor`
unfoldable pub is_machine_author : String → Bool
is_machine_author name = name == engine_author_name || name == agent_author_name

-- `RingBranch`
unfoldable pub ring_branch : String → String
ring_branch group = "rings/" <> group

abbrev pub checked : Option Failure → Result Failure (Unit {0})
checked none = ok tt
checked (some e) = err e

module _ {A X : Type 0} where
  abbrev pub with_outside : X → World A X → World A X
  with_outside x w = record w { outside = x }

  abbrev pub with_fleet : Fleet A → X → World A X → World A X
  with_fleet f x w = record w { fleet = f; outside = x }

  abbrev pub with_run : Option State → World A X → World A X
  with_run s w = record w { run = s }

  abbrev pub with_branch : String → String → World A X → World A X
  with_branch b rev w = record w { branches = insert b rev w.branches }

  -- The remote's branch becomes the repository's.
  abbrev pub with_pushed : String → World A X → World A X
  with_pushed b w = elim (lookup b w.branches) [
    | none ↦ w
    | some rev ↦ record w { remote = insert b rev w.remote }
  ]

  -- A call of a port that answers a value, and one that may fail.
  abbrev pub ask : {B : Type 0} → (X → B × X) → Action (World A X) B
  ask call w = (ok (call w.outside).0, with_outside (call w.outside).1 w)

  abbrev pub ask_or_fail : {B : Type 0} → (X → Result Failure B × X) → Action (World A X) B
  ask_or_fail call w = ((call w.outside).0, with_outside (call w.outside).1 w)

  module _ (ports : Ports A X) where
    unfoldable pub call : Call → Action (World A X) (Unit {0})
    call c = ask_or_fail (λ x. (checked (ports.attempt c x).0, (ports.attempt c x).1))

    -- `s.store.Get`
    unfoldable pub store_get : Action (World A X) (Option State)
    unfolding call
    store_get = do call get_run; gets (λ w. w.run)

    -- `s.store.Put`
    unfoldable pub store_put : State → Action (World A X) (Unit {0})
    unfolding call
    store_put s = do call put_run; modify (with_run (some s))

    -- `s.cfg.Apply`
    unfoldable pub apply :
        (Fleet A → Result Failure (Fleet A)) → String → List String → Action (World A X) (Unit {0})
    apply mut msg hosts w =
        let (r, (f, x)) = ports.apply mut msg hosts w.fleet w.outside in (r, with_fleet f x w)

    -- `moveRingRef`: the push is sent also where the branch had the revision
    unfoldable pub move_ring_ref : String → String → Action (World A X) (Unit {0})
    move_ring_ref group rev = do
      call (set_branch (ring_branch group))
      modify (with_branch (ring_branch group) rev)
      call (push_branch (ring_branch group))
      modify (with_pushed (ring_branch group))
