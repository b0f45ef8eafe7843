-- ===== src/Change/Hosts.antt =====
-- The blast radius of a change: which devices the gate is asked about at submit.
use sextant.Common.{
  inr, inl, Bool-cases, All, ◌≢◌, String_Testable, contains, String, eq_iff, ◌≡◌, refl, ◌||◌, List,
  [], ◌∷◌, ◌++◌, arith,
}
use sextant.Change.{false, true, gate_hosts, record_hosts, ChangeRequest, add_hosts}

contains-append :
    (xs ys : List String) (a : String) → contains (xs ++ ys) a ≡ (contains xs a || contains ys a)
contains-append [] ys a = refl
contains-append (x ∷ xs) ys a = ground (arith, contains-append xs ys a)

contains-add_hosts :
    (hosts new : List String) (a : String)
    → contains (add_hosts hosts new) a ≡ (contains hosts a || contains new a)
unfolding add_hosts
contains-add_hosts hosts [] a = ground arith
contains-add_hosts hosts (h ∷ hs) a = ground (
  arith,
  eq_iff h a,
  contains-add_hosts hosts hs a,
  contains-add_hosts (hosts ++ h ∷ []) hs a,
  contains-append hosts (h ∷ []) a,
)

-- The edits of a change, one list of hosts for each.
unfoldable pub record_all : ChangeRequest → List (List String) → ChangeRequest
record_all c [] = c
record_all c (hs ∷ edits) = record_all (record_hosts c hs) edits

-- An edit of the given hosts is inside the radius.
abbrev pub Covers : List String → List String → Type 0
Covers radius hs = (hs ≢ []) × ((a : String) → contains hs a ≡ true → contains radius a ≡ true)

record_hosts-grows :
    (c : ChangeRequest) (hs : List String) (a : String)
    → contains c.hosts a ≡ true
    → contains (record_hosts c hs).hosts a ≡ true
unfolding record_hosts
record_hosts-grows c [] a h = h
record_hosts-grows c (x ∷ hs) a h = ground (arith, contains-add_hosts c.hosts (x ∷ hs) a)

record_hosts-nil : (c : ChangeRequest) → (record_hosts c []).whole_fleet ≡ true
unfolding record_hosts
record_hosts-nil c = refl

record_hosts-adds :
    (c : ChangeRequest) (x : String) (hs : List String) (a : String)
    → contains (x ∷ hs) a ≡ true
    → contains (record_hosts c (x ∷ hs)).hosts a ≡ true
unfolding record_hosts
record_hosts-adds c x hs a h = ground (arith, contains-add_hosts c.hosts (x ∷ hs) a)

record_all-grows :
    (c : ChangeRequest) (edits : List (List String)) (a : String)
    → contains c.hosts a ≡ true
    → contains (record_all c edits).hosts a ≡ true
unfolding record_all
record_all-grows c [] a h = h
record_all-grows c (hs ∷ edits) a h =
    record_all-grows (record_hosts c hs) edits a (record_hosts-grows c hs a h)

record_all-whole :
    (c : ChangeRequest) (edits : List (List String))
    → c.whole_fleet ≡ true
    → (record_all c edits).whole_fleet ≡ true
unfolding record_all record_hosts
record_all-whole c [] h = h
record_all-whole c ([] ∷ edits) h = record_all-whole (record_hosts c []) edits refl
record_all-whole c ((x ∷ hs) ∷ edits) h = record_all-whole (record_hosts c (x ∷ hs)) edits h

record_all-Covers :
    (c : ChangeRequest) (edits : List (List String))
    → (record_all c edits).whole_fleet ≡ false
    → All (Covers (record_all c edits).hosts) edits
unfolding record_all
record_all-Covers c [] w = tt
record_all-Covers c ([] ∷ edits) w =
    absurd (cc (record_all-whole (record_hosts c []) edits (record_hosts-nil c)))
record_all-Covers c ((x ∷ hs) ∷ edits) w = (
  (
    λ e. cc,
    λ a m. record_all-grows (record_hosts c (x ∷ hs)) edits a (record_hosts-adds c x hs a m),
  ),
  record_all-Covers (record_hosts c (x ∷ hs)) edits w,
)

-- Where the gate is asked about named hosts only, every edit of the change named its hosts, and each
-- of them is among those that the gate is asked about.
pub gate_hosts-Covers :
    (c : ChangeRequest) (edits : List (List String))
    → gate_hosts (record_all c edits) ≢ []
    → All (Covers (gate_hosts (record_all c edits))) edits
unfolding gate_hosts
gate_hosts-Covers c edits h = elim (Bool-cases (record_all c edits).whole_fleet) [
  | inl e ↦ absurd (h (rw e))
  | inr e ↦ rw e (record_all-Covers c edits e)
]
