-- ===== src/Examples/Requests.antt =====
-- A change from its draft to its merge, an elevation that is answered, the ceremony of a machine, and
-- a user with a role in one group.
use sextant.Common.{
  ltb, any, All, trim_space, zero_time, ok, err, ◌+◌, String, ◌≡◌, refl, true, false, ◌&&◌, ◌||◌,
  none, List, [], ◌∷◌, arith,
}
use sextant.Change.{
  ChangeRequest, Status, draft, building, ready, merged, transition, gate_hosts, record_hosts,
  can_transition, is_known, transitions, add_hosts,
}
use sextant.Change.Flow.{opened, moved, merged-was_built}
use sextant.Change.Hosts.{record_all, Covers, gate_hosts-Covers}
use sextant.Elevation.{Request, pending, approved, decide, resolve, grants, ttl, already}
use sextant.Elevation.Answer.{decide-decide, grants-decide}
use sextant.Imaging
use sextant.Imaging.{
  pending, imaging, installed, done, report, advance, advance_from_device, sb_audit, sb_enforcing,
  tpm2_present, ack_other, ack_tpm2_enrolled,
}
use sextant.Imaging.Ceremony.{done-vouched, run, vouches, Beat, Event, beat, station}
use sextant.Identity.{
  baseline, consider_bindings, consider_binding, consider, narrower_scopes, parse_role, User,
  Resolver, editor, meets, role_at, governing_scopes,
}
use sextant.Identity.Roles.{role_at-meets, role_at-can_view_anything, role_at-org, base_grants}
use sextant.Identity.Roles as Roles

abbrev opened_change : ChangeRequest
opened_change = record {
  id = "c1";
  title = "Update";
  author = "Ann";
  author_subject = "ann";
  branch = "cr/c1";
  status = draft;
  error = "";
  created = 5;
  updated = 5;
  hosts = [];
  whole_fleet = false;
}

abbrev step : ChangeRequest → Status → ChangeRequest
step c to = record c { status = to; updated = 6 }

to_building : transition opened_change building 6 ≡ ok (step opened_change building)
unfolding transition can_transition transitions is_known
to_building = refl

to_ready : transition (step opened_change building) ready 6 ≡ ok (step opened_change ready)
unfolding transition can_transition transitions is_known
to_ready = refl

to_merged : transition (step opened_change ready) merged 6 ≡ ok (step opened_change merged)
unfolding transition can_transition transitions is_known
to_merged = refl

merged-was_built_example :
    (t : List Status) × (merged ∷ ready ∷ building ∷ draft ∷ [] ≡ merged ∷ ready ∷ building ∷ t)
merged-was_built_example =
    merged-was_built refl
      (moved merged 6 (moved ready 6 (moved building 6 opened to_building) to_ready) to_merged) refl

abbrev edits : List (List String)
edits = ("pc-1" ∷ []) ∷ ("pc-2" ∷ "pc-1" ∷ []) ∷ []

gate_hosts-Covers_example : All (Covers (gate_hosts (record_all opened_change edits))) edits
gate_hosts-Covers_example =
    gate_hosts-Covers opened_change edits
      (unfold gate_hosts record_all record_hosts add_hosts in (λ e. cc))

abbrev asked : Request
asked = record {
  id = "r1";
  tag = "pc-1";
  user = "ann";
  action = "install";
  reason = "";
  state = pending;
  created = 100;
  decided = zero_time;
  decided_by = "";
}

abbrev answered : Request
answered = record asked { state = approved; decided = 200; decided_by = "bob" }

answer : decide asked true "bob" 200 ≡ ok answered
unfolding decide resolve trim_space
answer = refl

decide-decide_example : decide answered false "eve" 300 ≡ err (already approved)
decide-decide_example = decide-decide asked answered true false "bob" "eve" 200 300 answer

grants-decide_example : grants answered 300 ≡ (true && ltb 300 (100 + ttl))
grants-decide_example = grants-decide asked answered true "bob" 200 300 (omega arith) answer

-- A machine that is in audit mode first, then enforces Secure Boot, and then has its TPM2 sealed.
abbrev audited : Beat
audited = record { sb = sb_audit; tpm2 = tpm2_present; ack = ack_other }

abbrev enforcing : Beat
enforcing = record { sb = sb_enforcing; tpm2 = tpm2_present; ack = ack_other }

abbrev sealing : Beat
sealing = record { sb = sb_enforcing; tpm2 = tpm2_present; ack = ack_tpm2_enrolled }

-- The station images the machine; its own check-ins do the rest.
abbrev ceremony : List Event
ceremony =
    station imaging
    ∷ station installed
    ∷ beat audited
    ∷ beat enforcing
    ∷ beat sealing
    ∷ beat enforcing
    ∷ []

ceremony_done : run true true pending ceremony ≡ done
unfolding run report Imaging.can_transition Imaging.next Imaging.is_known advance_from_device
    advance
ceremony_done = refl

done-vouched_example : any vouches ceremony ≡ true
done-vouched_example = done-vouched pending ceremony true refl ceremony_done

abbrev ann : User
ann = record {
  subject = "ann";
  name = "Ann";
  email = "ann@example.org";
  groups = "staff" ∷ [];
  service = false;
}

abbrev resolver : Resolver
resolver = record {
  ancestry = none;
  device_groups = none;
  bindings = record { group = "staff"; role = "editor"; scope = "org" } ∷ [];
  baseline_viewer = [];
  baseline_editor = [];
  baseline_owner = [];
}

role_at-meets_example : meets (role_at resolver ann "group:lab") editor ≡ (
    base_grants resolver ("staff" ∷ []) editor
    || any
        (Roles.grants ("staff" ∷ []) (governing_scopes resolver "group:lab") editor)
        resolver.bindings)
role_at-meets_example = role_at-meets resolver ann "group:lab" editor refl (λ e. cc)

at_org : meets (role_at resolver ann "org") editor ≡ true
unfolding role_at baseline consider_bindings consider_binding consider meets governing_scopes
    narrower_scopes parse_role
at_org = refl
