-- ===== src/Examples/Scopes.antt =====
-- A scope with one setting, which is locked.
use sextant.Common.{ℕ, ◌≡◌, refl, some, [], ◌∷◌, arith}
use sextant.Common.{some, [], ◌∷◌, refl}
use sextant.Fleet.Model.{Scope, no_scope}
use sextant.Fleet.Scopes.{set_scope_setting, with_scope, scope_settings}
use sextant.Fleet.Scopes.Locks.{IsLocked, clear_key, edit_scope-IsLocked}
use sextant.Fleet.Scopes.Writes.{read, set_scope_setting-read}
use sextant.Examples.Fleets.{fleet}

abbrev locked_scope : Scope ℕ
locked_scope = record no_scope { settings = ("vpn", 1) ∷ ("ssh", 0) ∷ []; enforced = "vpn" ∷ [] }

locked_scope-IsLocked : IsLocked locked_scope
locked_scope-IsLocked k c = ground arith

edit_scope-IsLocked_example : IsLocked (record locked_scope { settings = ("vpn", 1) ∷ [] })
edit_scope-IsLocked_example =
    edit_scope-IsLocked (clear_key "ssh") locked_scope
      (record locked_scope { settings = ("vpn", 1) ∷ [] }) refl locked_scope-IsLocked

set_scope_setting-read_example :
    read "vpn" (
      scope_settings
        (record fleet { org = some (record no_scope { settings = ("vpn", 1) ∷ [] }) })
        "org")
    ≡ some 1
set_scope_setting-read_example =
    set_scope_setting-read "org" "vpn" "vpn" 1 fleet
      (record fleet { org = some (record no_scope { settings = ("vpn", 1) ∷ [] }) })
      (unfold set_scope_setting with_scope in refl)
