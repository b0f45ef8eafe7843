-- ===== src/Service/Rollouts/Flow.antt =====
-- internal/app/rollout.go: idle rings follow the head, and the run that starts by
-- itself. `strings.Contains` is the parameter `has_text`.
pub mod Damping
use sextant.Service.Rollouts.Plan.{start}
use sextant.Service.Rollouts.Control.{in_flight}
use sextant.Common.{
  ok, if◌then◌else◌, ◌==◌, is_empty, Map, lookup, ℕ, String, Bool, true, false, not, ◌&&◌, ◌||◌,
  Option, none, some, List, [], ◌∷◌, ◌++◌, ℕ_Testable, String_Testable,
}
use sextant.Fleet.Model.{Fleet, Group, RolloutPolicy, RolloutRing, group_list, auto_flow_enabled}
use sextant.Rollout.State.{State}
use sextant.Service.Action.{Action, ◌>>=◌, ◌>>◌, pure, gets}
use sextant.Service.Rollouts.World.{
  AuditEntry, Ports, World, read_head, read_log, call, store_get, move_ring_ref, is_machine_author,
}

abbrev pub holds_branches : Option State → Bool
holds_branches none = false
holds_branches (some s) = in_flight s.status

abbrev pub auto_flow_log_depth : ℕ
auto_flow_log_depth = 200

abbrev pub risk_high_marker : String
risk_high_marker = "[risk:high]"

-- `autoFlowScan`
pub record AutoFlowScan : Type 0 where
  pub roll : Bool
  pub risk_hash : String
  pub risk_subject : String

abbrev pub no_scan : AutoFlowScan
no_scan = record { roll = false; risk_hash = ""; risk_subject = "" }

-- The tests of an entry that is no machine's.
abbrev pub marks : (String → String → Bool) → AuditEntry → AutoFlowScan → AutoFlowScan
marks has_text e scan =
    if scan.risk_hash == "" && has_text e.subject risk_high_marker
    then record { roll = true; risk_hash = e.hash; risk_subject = e.subject }
    else record scan { roll = true }

-- The loop of `nonMachineCommitsSince`, newest first.
unfoldable pub scan_entries :
    (String → String → Bool) → String → List AuditEntry → AutoFlowScan → AutoFlowScan
scan_entries has_text baseline [] scan = record scan { roll = true }
scan_entries has_text baseline (e ∷ es) scan =
    let skipped = scan_entries has_text baseline es scan in
    let marked = scan_entries has_text baseline es (marks has_text e scan) in
    if e.hash == baseline then scan else if is_machine_author e.author then skipped else marked

-- The last status, or none, leaves the engine free: nil, completed or cancelled.
abbrev pub is_idle : Option State → Bool
is_idle st = not (holds_branches st)

-- `atHead`
abbrev pub all_at : String → List String → Bool
all_at rev [] = true
all_at rev (p ∷ ps) = p == rev && all_at rev ps

abbrev pub rings_of : Option RolloutPolicy → List RolloutRing
rings_of none = []
rings_of (some p) = p.rings

-- `promotedBaseline`, first result
abbrev pub baseline_of : List String → String
baseline_of [] = ""
baseline_of (p ∷ ps) = p

module _ {A : Type 0} where
  -- The pins of the groups of one ring.
  unfoldable pub pins_of : Map (Group A) → List String → List String
  pins_of groups [] = []
  pins_of groups (name ∷ names) = elim (lookup name groups) [
    | none ↦ pins_of groups names
    | some g ↦ if g.pin == "" then pins_of groups names else g.pin ∷ pins_of groups names
  ]

  -- The pins of the plan, in its order.
  unfoldable pub plan_pins : Map (Group A) → List RolloutRing → List String
  unfolding pins_of
  plan_pins groups [] = []
  plan_pins groups (r ∷ rs) = pins_of groups (group_list r) ++ plan_pins groups rs

  module _ {X : Type 0} (ports : Ports A X) (has_text : String → String → Bool) where
    -- The loop of `FollowHead` over the groups of one ring.
    unfoldable pub follow_groups : Fleet A → String → List String → Action (World A X) (Unit {0})
    unfolding move_ring_ref
    follow_groups f head [] = pure tt
    follow_groups f head (name ∷ names) = elim (lookup name f.groups) [
      | none ↦ follow_groups f head names
      | some g ↦
          if g.pin == ""
          then (move_ring_ref ports name head >> follow_groups f head names)
          else follow_groups f head names
    ]

    unfoldable pub follow_rings :
        Fleet A → String → List RolloutRing → Action (World A X) (Unit {0})
    unfolding follow_groups
    follow_rings f head [] = pure tt
    follow_rings f head (r ∷ rs) = do follow_groups f head (group_list r); follow_rings f head rs

    -- `s.refs.Head`
    unfoldable pub read_head_of : Action (World A X) String
    unfolding call
    read_head_of = do call ports read_head; gets (λ w. ports.head w.outside)

    -- What `FollowHead` does between runs.
    unfoldable pub follow_plan : Fleet A → Action (World A X) (Unit {0})
    unfolding follow_rings read_head_of
    follow_plan f = elim f.rollout [
      | none ↦ pure tt
      | some p ↦ do head ← read_head_of; follow_rings f head p.rings
    ]

    -- `FollowHead`
    unfoldable pub follow_head : Action (World A X) (Unit {0})
    unfolding follow_plan store_get
    follow_head = if not ports.has_refs then pure tt else do
      st ← store_get ports
      f ← gets (λ w. w.fleet)
      if holds_branches st then pure tt else follow_plan f

    -- `nonMachineCommitsSince`
    unfoldable pub non_machine_commits_since : String → Action (World A X) AutoFlowScan
    unfolding call scan_entries
    non_machine_commits_since baseline = do
      call ports read_log
      entries ← gets (λ w. ports.log auto_flow_log_depth w.outside)
      pure (scan_entries has_text baseline entries no_scan)

    -- `holdForRisk` with `markRiskNotified`: one notification for each commit
    unfoldable pub hold_for_risk : AutoFlowScan → Action (World A X) (Unit {0})
    hold_for_risk scan w = if w.risk_hold_notified == scan.risk_hash then (ok tt, w) else (
      ok tt,
      record w {
        risk_hold_notified = scan.risk_hash;
        outside = ports.emit "High-risk change awaits manual rollout" w.outside;
      },
    )

    -- The end of `maybeAutoStart`, after the walk.
    unfoldable pub start_or_hold : String → AutoFlowScan → Action (World A X) (Unit {0})
    unfolding hold_for_risk start
    start_or_hold head scan =
        if not scan.roll
        then pure tt
        else if not (scan.risk_hash == "")
        then hold_for_risk scan
        else do start ports head; pure tt

    abbrev pub scan_and_start : String → String → Action (World A X) (Unit {0})
    scan_and_start head baseline = do
      scan ← non_machine_commits_since baseline
      start_or_hold head scan

    -- What `maybeAutoStart` does with the pins of a plan.
    unfoldable pub auto_start_from : List String → Action (World A X) (Unit {0})
    unfolding read_head_of non_machine_commits_since start_or_hold
    auto_start_from pins = do
      head ← read_head_of
      if is_empty pins || all_at head pins then pure tt else scan_and_start head (baseline_of pins)

    -- `maybeAutoStart`
    unfoldable pub maybe_auto_start : Action (World A X) (Unit {0})
    unfolding auto_start_from store_get plan_pins
    maybe_auto_start w =
        let f = w.fleet in
        if not ports.has_refs || is_empty (rings_of f.rollout) || not (auto_flow_enabled f.rollout)
        then (ok tt, w)
        else (do
          st ← store_get ports
          if is_idle st then auto_start_from (plan_pins f.groups (rings_of f.rollout)) else pure tt)
            w
