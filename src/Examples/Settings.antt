-- ===== src/Examples/Settings.antt =====
-- The settings of a machine: two contributors, and a fleet whose organisation enforces a key.
use sextant.Common.{keep, All, lookup, ℕ, ◌≤◌, String, ◌≡◌, refl, true, false, some, List, [], ◌∷◌}
use sextant.Fleet.Model.{no_scope, Scope, Fleet}
use sextant.Fleet.Chain.{Contributor}
use sextant.Fleet.Resolve.{resolve, enforces, sets}
use sextant.Fleet.Resolve.Precedence.{
  ResolvesTo, resolve_key-enforced, resolve_key-default, resolve_key-ties, StandsBefore,
}
use sextant.Fleet.Resolve.Governance.{resolve-org}
use mathlib.Core.List.{Mem}
use sextant.Examples.Fleets.{fleet, machine}

abbrev from_org : Contributor ℕ
from_org = record {
  settings = ("vpn", 1) ∷ [];
  enforced = "vpn" ∷ [];
  specificity = 0;
  inline = true;
  order = 0;
  source = record { scope = "org"; policy = "" };
}

abbrev from_device : Contributor ℕ
from_device = record {
  settings = ("vpn", 2) ∷ ("dns", 3) ∷ [];
  enforced = [];
  specificity = 2;
  inline = true;
  order = 1;
  source = record { scope = "device"; policy = "" };
}

abbrev chain : List (Contributor ℕ)
chain = from_org ∷ from_device ∷ []

resolve_key-enforced_example :
    (w : Contributor ℕ) × Mem w chain
    × (enforces "vpn" w ≡ true)
    × All (λ c. w.specificity ≤ c.specificity) (keep (enforces "vpn") chain)
    × ResolvesTo chain "vpn" w true
resolve_key-enforced_example = resolve_key-enforced chain "vpn" refl

resolve_key-default_example :
    (w : Contributor ℕ) × Mem w chain
    × (sets "dns" w ≡ true)
    × All (λ c. c.specificity ≤ w.specificity) (keep (sets "dns") chain)
    × ResolvesTo chain "dns" w false
resolve_key-default_example = resolve_key-default chain "dns" refl refl

-- Two policies of one scope that set the same key.
abbrev policy_at : ℕ → String → ℕ → Contributor ℕ
policy_at place name value = record {
  settings = ("vpn", value) ∷ [];
  enforced = [];
  specificity = 1;
  inline = false;
  order = place;
  source = record { scope = "group:lab"; policy = name };
}

abbrev tied : List (Contributor ℕ)
tied = policy_at 1 "second" 8 ∷ policy_at 0 "first" 7 ∷ []

resolve_key-ties_example :
    (w : Contributor ℕ) × Mem w tied
    × (sets "vpn" w ≡ true)
    × All (StandsBefore w) tied
    × ResolvesTo tied "vpn" w false
resolve_key-ties_example = resolve_key-ties tied "vpn" refl

-- The organisation sets the network and enforces it; the machine sets another.
abbrev org_scope : Scope ℕ
org_scope = record no_scope { settings = ("vpn", 1) ∷ []; enforced = "vpn" ∷ [] }

abbrev governed : Fleet ℕ
governed = record fleet {
  org = some org_scope;
  devices =
      ("pc-1", record machine { scope = record no_scope { settings = ("vpn", 2) ∷ [] } }) ∷ [];
}

resolve-org_example :
    lookup "vpn" (resolve governed "pc-1")
    ≡ some (record { value = 1; source = record { scope = "org"; policy = "" }; enforced = true })
resolve-org_example = resolve-org governed "pc-1" "vpn" org_scope 1 refl refl refl
