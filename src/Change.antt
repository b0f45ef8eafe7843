-- ===== src/Change.antt =====
-- internal/domain/change/change.go: change requests and the flow of their status.
pub mod Flow
pub mod Hosts
use sextant.Common.{
  if◌then◌else◌, Testable, ◌==◌, contains, ◌<>◌, is_slug, Time, Result, refuse, ok, String, eq_iff,
  ◌≡◌, ◌↔◌, Bool, true, false, not, ◌&&◌, List, [], ◌∷◌, ◌++◌, arith, ◌>>◌, ℕ_Testable,
  String_Testable,
}

-- `Status` is a text in the source; `other` holds a text that is none of the six.
pub data Status : Type 0 where
  draft building failed ready merged abandoned : Status
  other : String → Status

abbrev pub same : Status → Status → Bool
same draft draft = true
same building building = true
same failed failed = true
same ready ready = true
same merged merged = true
same abandoned abandoned = true
same (other s) (other t) = s == t
same _ _ = false

pub same_iff : (s t : Status) → (same s t ≡ true) ↔ (s ≡ t)
same_iff (other s) (other t) = ground (arith, eq_iff s t)
same_iff draft t = ground arith
same_iff s t = ground arith

instance abbrev pub Status_Testable : Testable Status
Status_Testable = record { test = same; test_iff = same_iff }

-- `Valid`
unfoldable pub is_known : Status → Bool
is_known (other s) = false
is_known _ = true

-- `transitions`
unfoldable pub transitions : Status → List Status
transitions draft = building ∷ abandoned ∷ []
transitions building = ready ∷ failed ∷ []
transitions failed = draft ∷ building ∷ abandoned ∷ []
transitions ready = merged ∷ draft ∷ abandoned ∷ []
transitions _ = []

-- `CanTransition`
unfoldable pub can_transition : Status → Status → Bool
unfolding transitions
can_transition from to = contains (transitions from) to

pub record ChangeRequest : Type 0 where
  pub id : String
  pub title : String
  pub author : String
  pub author_subject : String
  pub branch : String
  pub status : Status
  pub error : String
  pub created : Time
  pub updated : Time
  pub hosts : List String
  pub whole_fleet : Bool

pub data Error : Type 0 where
  invalid_id : String → Error
  no_title : Error
  unknown_status : Status → Error
  illegal_step : Status → Status → Error

-- The loop of `RecordHosts`; its `seen` holds just the hosts of the list.
unfoldable pub add_hosts : List String → List String → List String
add_hosts hosts [] = hosts
add_hosts hosts (h ∷ hs) = add_hosts (if contains hosts h then hosts else hosts ++ h ∷ []) hs

-- `RecordHosts`
unfoldable pub record_hosts : ChangeRequest → List String → ChangeRequest
unfolding add_hosts
record_hosts c [] = record c { whole_fleet = true }
record_hosts c (h ∷ hs) = record c { hosts = add_hosts c.hosts (h ∷ hs) }

-- `GateHosts`; the empty list is nil, which stands for everything
unfoldable pub gate_hosts : ChangeRequest → List String
gate_hosts c = if c.whole_fleet then [] else c.hosts

-- `Open`
unfoldable pub is_open : ChangeRequest → Bool
is_open c = not (same c.status merged) && not (same c.status abandoned)

-- `BranchFor`
unfoldable pub branch_for : String → String
branch_for id = "cr/" <> id

-- `ValidID` and `New`
unfoldable pub new : String → String → String → String → Time → Result Error ChangeRequest
unfolding branch_for
new id title author author_subject now = do
  refuse (not (is_slug id)) (invalid_id id)
  refuse (title == "") no_title
  ok (record {
    id = id;
    title = title;
    author = author;
    author_subject = author_subject;
    branch = branch_for id;
    status = draft;
    error = "";
    created = now;
    updated = now;
    hosts = [];
    whole_fleet = false;
  })

-- `Transition`
unfoldable pub transition : ChangeRequest → Status → Time → Result Error ChangeRequest
unfolding is_known can_transition
transition c to now = do
  refuse (not (is_known to)) (unknown_status to)
  refuse (not (can_transition c.status to)) (illegal_step c.status to)
  ok (record c { status = to; updated = now })
