-- ===== src/Rollout/Ring.antt =====
-- internal/domain/rollout/rollout.go, lines 17 to 168: a wave, its thresholds, and the tests that
-- the engine makes on a wave's observed convergence. `int` fields that an operator writes are
-- signed; the counts of devices in `RingStatus` are lengths of lists and are natural numbers.
pub mod Gates
use sextant.Common.{
  ℕ, ◌+◌, ◌-◌, ◌*◌, ◌/◌, Bool, false, ◌&&◌, String, List, [], ◌∷◌, ltb, leb, ◌==◌, if◌then◌else◌, ℤ,
  pos, pos_part, ltb_ℤ, leb_ℤ, ◌-ℤ◌, ◌+ℤ◌, wrap_int64, quot, join, ℕ_Testable, String_Testable,
}

pub record Ring : Type 0 where
  pub group : String
  pub groups : List String
  pub name : String
  pub soak_minutes : ℤ
  pub min_healthy_percent : ℤ
  pub require_approval : Bool
  pub min_devices : ℤ
  pub max_devices : ℤ

pub record RingStatus : Type 0 where
  pub total : ℕ
  pub on_target : ℕ
  pub healthy : ℕ
  pub broken : ℕ
  pub absent : ℕ
  pub released : ℕ
  pub group_total : ℕ

-- `GroupList`
unfoldable pub group_list : Ring → List String
group_list r = elim r.groups [ g ∷ gs ↦ r.groups | [] ↦ if r.group == "" then [] else r.group ∷ [] ]

-- `Label`
unfoldable pub label : Ring → String
label r = if r.name == "" then join (group_list r) ", " else r.name

-- `minHealthy`
unfoldable pub min_healthy : Ring → ℤ
min_healthy r = if leb_ℤ r.min_healthy_percent (pos 0) then pos 95 else r.min_healthy_percent

-- `want`, after the default is put in
unfoldable pub wanted : Ring → ℕ → ℕ
wanted r total = if leb_ℤ r.min_devices (pos 0) then (total + 1) / 2 else pos_part r.min_devices

-- `minPresent`
unfoldable pub min_present : Ring → ℕ → ℕ
unfolding wanted
min_present r total =
    let capped = if ltb total (wanted r total) then total else wanted r total in
    if ltb capped 1 then 1 else capped

-- `Present`: the subtraction on ℕ stops at 0 as the source's branch does
unfoldable pub present : RingStatus → ℕ
present rs = rs.total - rs.absent

-- `n*100/p` in 64-bit integers, for 0 < p
unfoldable pub percent : ℕ → ℕ → ℤ
percent n p = quot (wrap_int64 (pos (n * 100))) p

-- `EnoughEvidence`
unfoldable pub enough_evidence : Ring → RingStatus → Bool
enough_evidence r rs = leb (min_present r rs.total) (present rs)

-- `Converged`
unfoldable pub converged : Ring → RingStatus → Bool
converged r rs =
    if ltb (present rs) (min_present r rs.total)
    then false
    else ltb 0 (present rs) && leb_ℤ (min_healthy r) (percent rs.healthy (present rs))

-- `TooBroken`
unfoldable pub too_broken : Ring → RingStatus → Bool
too_broken r rs =
    if present rs == 0
    then false
    else ltb_ℤ (pos 100 -ℤ min_healthy r) (percent rs.broken (present rs))

-- `NextRelease`; the sum is one of 64-bit integers, and wraps
unfoldable pub next_release : Ring → ℕ → ℕ → ℤ
next_release r total released =
    let next = wrap_int64 (pos released +ℤ r.max_devices) in
    if leb_ℤ r.max_devices (pos 0)
    then pos total
    else if ltb_ℤ (pos total) next
    then pos total
    else next
