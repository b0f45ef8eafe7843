-- ===== src/Identity.antt =====
-- internal/domain/identity/identity.go: roles and the role bindings at scopes.
pub mod Roles
use sextant.Common.{
  ltb, leb, if◌then◌else◌, ◌==◌, any, contains, ◌<>◌, cut_prefix, has_prefix, Result, refuse, ok,
  err, ℕ, String, Bool, true, false, not, ◌&&◌, ◌||◌, Option, none, some, List, [], ◌∷◌, ◌++◌, map,
  ◌>>=◌, ◌>>◌, ℕ_Testable, String_Testable,
}

-- `Role`; `no_role` is `None`.
pub data Role : Type 0 where
  no_role viewer editor owner : Role

-- The number of a role.
abbrev pub rank : Role → ℕ
rank no_role = 0
rank viewer = 1
rank editor = 2
rank owner = 3

pub data Error : Type 0 where
  unknown_role : String → Error
  no_group : Error
  bad_scope : String → Error

-- `ParseRole`
unfoldable pub parse_role : String → Result Error Role
parse_role s =
    if s == "viewer"
    then ok viewer
    else if s == "editor"
    then ok editor
    else if s == "owner"
    then ok owner
    else err (unknown_role s)

-- `String` of a role
unfoldable pub role_text : Role → String
role_text no_role = "none"
role_text viewer = "viewer"
role_text editor = "editor"
role_text owner = "owner"

-- `Meets`
unfoldable pub meets : Role → Role → Bool
meets r required = leb (rank required) (rank r)

pub record User : Type 0 where
  pub subject : String
  pub name : String
  pub email : String
  pub groups : List String
  pub service : Bool

pub record Binding : Type 0 where
  pub group : String
  pub role : String
  pub scope : String

-- `Validate` of `Binding`
unfoldable pub validate : Binding → Result Error (Unit {0})
unfolding parse_role
validate b = do
  refuse (b.group == "") no_group
  _ ← parse_role b.role
  refuse (not (b.scope == "org") && not (has_prefix b.scope "group:")) (bad_scope b.scope)

-- `Resolver`; the two functions may be nil.
pub record Resolver : Type 0 where
  pub ancestry : Option (String → List String)
  pub device_groups : Option (String → List String)
  pub bindings : List Binding
  pub baseline_viewer : List String
  pub baseline_editor : List String
  pub baseline_owner : List String

-- `intersects`
unfoldable pub intersects : List String → List String → Bool
intersects member groups = any (contains member) groups

-- `addGroup` of `governingScopes`: the scopes that a group adds to the set.
unfoldable pub add_group : Resolver → String → List String
add_group rv g =
    let chain : List String = elim rv.ancestry [ none ↦ g ∷ [] | some up ↦ up g ] in
    map (λ anc. "group:" <> anc) chain

unfoldable pub add_groups : Resolver → List String → List String
unfolding add_group
add_groups rv [] = []
add_groups rv (g ∷ gs) = add_group rv g ++ add_groups rv gs

-- The cases of a target in `governingScopes`.
unfoldable pub narrower_scopes : Resolver → String → List String
unfolding add_group add_groups
narrower_scopes rv ref = if ref == "org" then [] else elim (cut_prefix "group:" ref) [
  | some g ↦ add_group rv g
  | none ↦ elim (cut_prefix "device:" ref) [
    | none ↦ []
    | some tag ↦ elim rv.device_groups [ none ↦ [] | some of ↦ add_groups rv (of tag) ]
  ]
]

-- `governingScopes`: the set as the list of its items.
unfoldable pub governing_scopes : Resolver → String → List String
unfolding narrower_scopes
governing_scopes rv ref = "org" ∷ narrower_scopes rv ref

-- `consider`
unfoldable pub consider : Role → Role → Role
consider role best = if ltb (rank best) (rank role) then role else best

abbrev pub consider_if : Bool → Role → Role → Role
consider_if holds role best = if holds then consider role best else best

-- The body of the loop over the bindings in `RoleAt`.
unfoldable pub consider_binding : List String → List String → Binding → Role → Role
unfolding consider parse_role
consider_binding member govern b best =
    if not (contains member b.group) || not (contains govern b.scope)
    then best
    else elim (parse_role b.role) [ ok r ↦ consider r best | err _ ↦ best ]

-- The loop.
unfoldable pub consider_bindings : List String → List String → Role → List Binding → Role
unfolding consider_binding
consider_bindings member govern best [] = best
consider_bindings member govern best (b ∷ bs) =
    consider_bindings member govern (consider_binding member govern b best) bs

-- The roles that the server's configuration grants.
unfoldable pub baseline : Resolver → List String → Role
unfolding consider intersects
baseline rv member = consider_if (intersects member rv.baseline_viewer) viewer (
    consider_if (intersects member rv.baseline_editor) editor
      (consider_if (intersects member rv.baseline_owner) owner no_role))

-- `RoleAt`
unfoldable pub role_at : Resolver → User → String → Role
unfolding consider_bindings baseline governing_scopes
role_at rv u ref =
    if u.service
    then owner
    else consider_bindings u.groups (governing_scopes rv ref) (baseline rv u.groups) rv.bindings

abbrev pub views : List String → Binding → Bool
views member b =
    contains member b.group && elim (parse_role b.role) [ ok r ↦ leb 1 (rank r) | err _ ↦ false ]

-- `CanViewAnything`
unfoldable pub can_view_anything : Resolver → User → Bool
unfolding parse_role
can_view_anything rv u =
    if u.service
    then true
    else if leb (rank viewer) (rank (role_at rv u "org"))
    then true
    else any (views u.groups) rv.bindings
