-- ===== src/Service/Rollouts/Flow/Damping.antt =====
-- When a run starts by itself: the walk of the log, against its description.
use sextant.Service.Rollouts.Outcomes.{call-cases, store_get-cases}
use sextant.Fleet.Model.{Fleet, auto_flow_enabled}
use sextant.Service.Rollouts.Flow.{
  all_at, read_head_of, scan_and_start, maybe_auto_start, auto_start_from,
  non_machine_commits_since, rings_of, plan_pins, baseline_of, auto_flow_log_depth, is_idle,
  start_or_hold, hold_for_risk, no_scan, marks, AutoFlowScan, scan_entries, risk_high_marker,
}
use sextant.Common.{
  ◌≢◌, refl, ◌⊎◌, eq_iff, ◌∙◌, Bool-cases, if◌then◌else◌, ◌==◌, is_empty, keep, any, String, ◌≡◌,
  Bool, false, not, ◌&&◌, ◌||◌, List, [], ◌∷◌, arith, ℕ_Testable, String_Testable,
}
use sextant.Common.{true, false, inl, inr, List, [], ◌∷◌}
use sextant.Service.Rollouts.World.{
  read_head, read_log, with_outside, World, Ports, AuditEntry, is_machine_author,
}

-- The entries that are newer than the baseline.
abbrev pub newer : String → List AuditEntry → List AuditEntry
newer baseline [] = []
newer baseline (e ∷ es) = if e.hash == baseline then [] else e ∷ newer baseline es

abbrev pub is_listed : String → List AuditEntry → Bool
is_listed baseline [] = false
is_listed baseline (e ∷ es) = e.hash == baseline || is_listed baseline es

abbrev pub by_people : List AuditEntry → List AuditEntry
by_people es = keep (λ e. not (is_machine_author e.author)) es

-- A commit that carries the marker, and a name by which the hold can be told.
abbrev pub is_risky : (String → String → Bool) → AuditEntry → Bool
is_risky has_text e = has_text e.subject risk_high_marker && not (e.hash == "")

or_false : (b : Bool) → b ≡ (b || (false || false))
or_false b = ground arith

and_true : (b : Bool) → b ≡ (b && true)
and_true b = ground arith

people_roll : (a b c d : Bool) → a ≡ true → (a || (c || d)) ≡ (b || (c || true))
people_roll a b c d h = ground arith

people_risk : (a b c d : Bool) → a ≡ (b && not c) → (a && not d) ≡ (b && not (c || d))
people_risk a b c d h = ground arith

module _ (has_text : String → String → Bool) (baseline : String) where
  marks-roll : (e : AuditEntry) (scan : AutoFlowScan) → (marks has_text e scan).roll ≡ true
  marks-roll e scan = ground arith

  marks-risk :
      (e : AuditEntry) (scan : AutoFlowScan)
      → ((marks has_text e scan).risk_hash == "")
        ≡ (scan.risk_hash == "" && not (is_risky has_text e))
  marks-risk e scan = ground (arith, eq_iff e.hash "", eq_iff scan.risk_hash "")

  scan-roll_from :
      (es : List AuditEntry) (scan : AutoFlowScan)
      → (scan_entries has_text baseline es scan).roll ≡ (
          scan.roll
          || (not (is_listed baseline es) || not (is_empty (by_people (newer baseline es)))))
  unfolding scan_entries
  scan-roll_from [] scan = ground arith
  scan-roll_from (e ∷ es) scan = elim (Bool-cases (e.hash == baseline)) [
    | inl h ↦ rw h (or_false scan.roll)
    | inr h ↦ elim (Bool-cases (is_machine_author e.author)) [
      | inl m ↦ rw (h, m) (scan-roll_from es scan)
      | inr m ↦
          rw (h, m)
            (scan-roll_from es (marks has_text e scan)
              ∙ people_roll (marks has_text e scan).roll scan.roll (not (is_listed baseline es)) _
                  (marks-roll e scan))
    ]
  ]

  scan-risk_from :
      (es : List AuditEntry) (scan : AutoFlowScan)
      → (((scan_entries has_text baseline es scan).risk_hash == "")
          ≡ (scan.risk_hash == "" && not (any (is_risky has_text) (by_people (newer baseline es)))))
  unfolding scan_entries
  scan-risk_from [] scan = ground arith
  scan-risk_from (e ∷ es) scan = elim (Bool-cases (e.hash == baseline)) [
    | inl h ↦ rw h (and_true (scan.risk_hash == ""))
    | inr h ↦ elim (Bool-cases (is_machine_author e.author)) [
      | inl m ↦ rw (h, m) (scan-risk_from es scan)
      | inr m ↦
          rw (h, m)
            (scan-risk_from es (marks has_text e scan)
              ∙ people_risk ((marks has_text e scan).risk_hash == "") (scan.risk_hash == "")
                  (is_risky has_text e) _ (marks-risk e scan))
    ]
  ]

-- What the walk says of a log: whether a run is due, and whether it is held.
pub record IsFree (has_text : String → String → Bool) (baseline : String) (es : List AuditEntry)
    : Type 0 where
  pub due : (not (is_listed baseline es) || not (is_empty (by_people (newer baseline es)))) ≡ true
  pub unmarked : any (is_risky has_text) (by_people (newer baseline es)) ≡ false

scan-IsFree :
    (has_text : String → String → Bool) (baseline : String) (es : List AuditEntry)
    → not (scan_entries has_text baseline es no_scan).roll ≡ false
    → not ((scan_entries has_text baseline es no_scan).risk_hash == "") ≡ false
    → IsFree has_text baseline es
scan-IsFree has_text baseline es r h = record {
  due = ground (arith, scan-roll_from has_text baseline es no_scan);
  unmarked = ground (arith, scan-risk_from has_text baseline es no_scan);
}

module _ {A X : Type 0} (ports : Ports A X) (has_text : String → String → Bool) where
  -- What holds where a run was started.
  pub record IsStart (w : World A X) : Type 0 where
    pub idle : is_idle w.run ≡ true
    pub flows : auto_flow_enabled w.fleet.rollout ≡ true
    pub rest : X
    pub free :
        IsFree has_text
          (baseline_of (plan_pins w.fleet.groups (rings_of w.fleet.rollout)))
          (ports.log auto_flow_log_depth rest)

  held-run :
      (scan : AutoFlowScan) (w : World A X) → (hold_for_risk ports has_text scan w).1.run ≡ w.run
  unfolding hold_for_risk
  held-run scan w = ground arith

  start_or_hold-cases :
      (head baseline : String) (x : X) (w : World A X)
      → ((start_or_hold ports has_text head
            (scan_entries has_text baseline (ports.log auto_flow_log_depth x) no_scan)
            w).1.run
          ≡ w.run)
        ⊎ IsFree has_text baseline (ports.log auto_flow_log_depth x)
  unfolding start_or_hold
  start_or_hold-cases head baseline x w =
      let scan = scan_entries has_text baseline (ports.log auto_flow_log_depth x) no_scan in
      elim (Bool-cases (not scan.roll)) [
        | inl r ↦ inl (rw (r, start_or_hold) refl)
        | inr r ↦ elim (Bool-cases (not (scan.risk_hash == ""))) [
          | inl h ↦ inl (rw (r, h, start_or_hold) (held-run scan w))
          | inr h ↦ inr (scan-IsFree has_text baseline (ports.log auto_flow_log_depth x) r h)
        ]
      ]

  scan_and_start-cases :
      (head baseline : String) (w : World A X)
      → ((scan_and_start ports has_text head baseline w).1.run ≡ w.run)
        ⊎ ((x : X) × IsFree has_text baseline (ports.log auto_flow_log_depth x))
  unfolding non_machine_commits_since
  scan_and_start-cases head baseline w = elim (call-cases ports read_log w) [
    | inr (e, x, g) ↦ inl (rw g refl)
    | inl (x, g) ↦ elim (start_or_hold-cases head baseline x (with_outside x w)) [
      | inl k ↦ inl (rw g k)
      | inr f ↦ inr (x, f)
    ]
  ]

  auto_start_from-cases :
      (pins : List String) (w : World A X)
      → ((auto_start_from ports has_text pins w).1.run ≡ w.run)
        ⊎ ((x : X) × IsFree has_text (baseline_of pins) (ports.log auto_flow_log_depth x))
  unfolding auto_start_from read_head_of
  auto_start_from-cases pins w = elim (call-cases ports read_head w) [
    | inr (e, x, g) ↦ inl (rw (g, auto_start_from, read_head_of) refl)
    | inl (x, g) ↦ elim (Bool-cases (is_empty pins || all_at (ports.head x) pins)) [
      | inl s ↦ inl (rw (g, auto_start_from, read_head_of) (rw s refl))
      | inr s ↦ elim (scan_and_start-cases (ports.head x) (baseline_of pins) (with_outside x w)) [
        | inl k ↦ inl (rw (g, auto_start_from, read_head_of) (rw s k))
        | inr f ↦ inr f
      ]
    ]
  ]

  off : Fleet A → Bool
  off f = not ports.has_refs || is_empty (rings_of f.rollout) || not (auto_flow_enabled f.rollout)

  on-flows : (f : Fleet A) → off f ≡ false → auto_flow_enabled f.rollout ≡ true
  unfolding off
  on-flows f h = ground arith

  maybe_auto_start-cases :
      (w : World A X) → ((maybe_auto_start ports has_text w).1.run ≡ w.run) ⊎ IsStart w
  unfolding maybe_auto_start off
  maybe_auto_start-cases w = elim (Bool-cases (off w.fleet)) [
    | inl o ↦ inl (rw (o, maybe_auto_start) refl)
    | inr o ↦ elim (store_get-cases ports w) [
      | inr (e, x, g) ↦ inl (rw (o, maybe_auto_start) (rw g refl))
      | inl (x, g) ↦ elim (Bool-cases (is_idle w.run)) [
        | inr i ↦ inl (rw (o, maybe_auto_start) (rw g (rw i refl)))
        | inl i ↦
            elim (auto_start_from-cases (plan_pins w.fleet.groups (rings_of w.fleet.rollout))
              (with_outside x w)) [
                | inl k ↦ inl (rw (o, maybe_auto_start) (rw g (rw i k)))
                | inr (y, f) ↦
                    inr (record { idle = i; flows = on-flows w.fleet o; rest = y; free = f })
              ]
      ]
    ]
  ]

  -- A run starts by itself only when no run holds the branches, the plan lets changes flow, the log
  -- (its newest 200 entries) has a commit above the promoted baseline that is not the control plane's, or
  -- does not show the baseline, and none of those commits that has a hash is marked as a high risk.
  pub maybe_auto_start-IsStart :
      (w : World A X) → (maybe_auto_start ports has_text w).1.run ≢ w.run → IsStart w
  maybe_auto_start-IsStart w ne = elim (maybe_auto_start-cases w) [
    | inl k ↦ absurd (ne k)
    | inr s ↦ s
  ]
