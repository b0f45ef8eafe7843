-- ===== src/Fleet/Model.antt =====
-- internal/domain/fleet/model.go: the fleet document. `A` is the type of a JSON value (`any`, and the
-- number of a condition). Left out of a device is `Spec`, the hardware that a station captured, which
-- no function here reads.
use sextant.Common.{
  if◌then◌else◌, ◌==◌, any, ℤ, Time, zero_time, Map, lookup, ℕ, String, Bool, true, false, Option,
  none, some, List, [], ◌∷◌, ℕ_Testable, String_Testable,
}

-- Where settings are written: `Scope`, and the fields that a group and a device share with it.
pub record Scope (A : Type 0) : Type 0 where
  pub settings : Map A
  pub enforced : List String
  pub packages : List String
  pub flatpaks : List String
  pub overlays : List String
  pub accepted : Map String

pub record Group (A : Type 0) : Type 0 where
  pub parent : String
  pub idp_group : String
  pub pin : String
  pub allowed_classes : List String
  pub scope : Scope A

abbrev pub device_active : String
device_active = ""

abbrev pub device_retired : String
device_retired = "retired"

abbrev pub device_provisional : String
device_provisional = "provisional"

pub record Itam : Type 0 where
  pub serial : String
  pub model : String
  pub owner : String
  pub site : String
  pub lifecycle : String
  pub host_key_id : String

pub record Device (A : Type 0) : Type 0 where
  pub state : String
  pub enrolled : Time
  pub intent : String
  pub pin : String
  pub groups : List String
  pub assigned_user : String
  pub class : String
  pub hardware : String
  pub labels : Map String
  pub scope : Scope A
  pub exceptions : Map String
  pub itam : Itam

pub record Condition (A : Type 0) : Type 0 where
  pub metric : String
  pub op : String
  pub value : A
  pub detail : String

pub record Policy (A : Type 0) : Type 0 where
  pub name : String
  pub description : String
  pub settings : Map A
  pub enforced : List String
  pub profile : String
  pub controls : List String
  pub conditions : List (Condition A)

pub record Assignment : Type 0 where
  pub policy : String
  pub target : String
  pub filter : String
  pub priority : ℤ

pub record FilterRule : Type 0 where
  pub attr : String
  pub op : String
  pub value : String
  pub values : List String

pub record Filter : Type 0 where
  pub name : String
  pub match : String
  pub rules : List FilterRule

pub record RolloutRing : Type 0 where
  pub group : String
  pub groups : List String
  pub name : String
  pub soak_minutes : ℤ
  pub min_healthy_percent : ℤ
  pub require_approval : Bool
  pub min_devices : ℤ
  pub max_devices : ℤ

pub record RolloutPolicy : Type 0 where
  pub rings : List RolloutRing
  pub approve_role : String
  pub auto_flow : Option Bool

pub record AccessBinding : Type 0 where
  pub group : String
  pub role : String
  pub scope : String

pub record Assurance : Type 0 where
  pub require_four_eyes : Bool
  pub require_change_request : Bool
  pub require_test_wave : Bool
  pub manual_rollout_only : Bool

pub record Station : Type 0 where
  pub description : String
  pub site : String

pub record Fleet (A : Type 0) : Type 0 where
  pub version : ℕ
  pub org : Option (Scope A)
  pub groups : Map (Group A)
  pub devices : Map (Device A)
  pub stations : Map Station
  pub policies : Map (Policy A)
  pub assignments : List Assignment
  pub filters : Map Filter
  pub access : List AccessBinding
  pub rollout : Option RolloutPolicy
  pub assurance : Option Assurance

-- What Go's map read gives for a missing key: the zero value.
abbrev pub no_scope : {A : Type 0} → Scope A
no_scope = record {
  settings = [];
  enforced = [];
  packages = [];
  flatpaks = [];
  overlays = [];
  accepted = [];
}

abbrev pub no_group : {A : Type 0} → Group A
no_group = record { parent = ""; idp_group = ""; pin = ""; allowed_classes = []; scope = no_scope }

abbrev pub no_device : {A : Type 0} → Device A
no_device = record {
  state = "";
  enrolled = zero_time;
  intent = "";
  pin = "";
  groups = [];
  assigned_user = "";
  class = "";
  hardware = "";
  labels = [];
  scope = no_scope;
  exceptions = [];
  itam = record {
    serial = "";
    model = "";
    owner = "";
    site = "";
    lifecycle = "";
    host_key_id = "";
  };
}

-- `f.Devices[tag]`
abbrev pub device_at : {A : Type 0} → Fleet A → String → Device A
device_at f tag = elim (lookup tag f.devices) [ none ↦ no_device | some d ↦ d ]

-- `Retired`
abbrev pub is_retired : {A : Type 0} → Device A → Bool
is_retired d = d.state == device_retired

-- `Provisional`
abbrev pub is_provisional : {A : Type 0} → Device A → Bool
is_provisional d = d.state == device_provisional

-- `GroupList` of `RolloutRing`
unfoldable pub group_list : RolloutRing → List String
group_list r = elim r.groups [ g ∷ gs ↦ r.groups | [] ↦ if r.group == "" then [] else r.group ∷ [] ]

-- `HasTestGate`, with `none` for nil
unfoldable pub has_test_gate : Option RolloutPolicy → Bool
has_test_gate none = false
has_test_gate (some p) = any (λ r. r.require_approval) p.rings

-- `AutoFlowEnabled`, with `none` for nil
unfoldable pub auto_flow_enabled : Option RolloutPolicy → Bool
auto_flow_enabled none = false
auto_flow_enabled (some p) = elim p.auto_flow [ none ↦ true | some on ↦ on ]
