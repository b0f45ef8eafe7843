-- ===== src/Fleet/Resolve.antt =====
-- internal/domain/fleet/resolve.go: the precedence rule over the contributors of a device.
pub mod Winner
pub mod Precedence
pub mod Governance
use sextant.Common.{
  ltb, if◌then◌else◌, ◌==◌, contains, ◌<>◌, Map, lookup, insert, has, keys, zero, String, Bool,
  true, false, not, ◌&&◌, ◌||◌, Option, none, some, List, [], ◌∷◌, ◌++◌, map, ℕ_Testable,
  String_Testable,
}
use sextant.Fleet.Model.{Fleet}
use sextant.Fleet.Chain.{Source, Contributor, chain_for}

pub record Resolution (A : Type 0) : Type 0 where
  pub value : A
  pub source : Source
  pub enforced : Bool

-- `String` of a source
unfoldable pub source_text : Source → String
source_text s = if s.policy == "" then s.scope else "policy:" <> s.policy <> "@" <> s.scope

abbrev pub same_bool : Bool → Bool → Bool
same_bool true b = b
same_bool false b = not b

module _ {A : Type 0} where
  -- `better`
  unfoldable pub better : Bool → Contributor A → Contributor A → Bool
  better general a b =
      if not (a.specificity == b.specificity)
      then (if general then ltb a.specificity b.specificity else ltb b.specificity a.specificity)
      else if not (same_bool a.inline b.inline)
      then a.inline
      else ltb a.order b.order

  -- `best == nil || better(c, best)`
  abbrev pub improves : Bool → Contributor A → Option (Contributor A) → Bool
  improves general c none = true
  improves general c (some b) = better general c b

  -- One pass over the chain: the best of the eligible contributors.
  unfoldable pub pick :
      (Contributor A → Bool)
      → Bool
      → Option (Contributor A)
      → List (Contributor A)
      → Option (Contributor A)
  pick eligible general best [] = best
  pick eligible general best (c ∷ chain) =
      pick eligible general (if eligible c && improves general c best then some c else best) chain

  abbrev pub sets : String → Contributor A → Bool
  sets key c = has key c.settings

  abbrev pub enforces : String → Contributor A → Bool
  enforces key c = has key c.settings && contains c.enforced key

  abbrev pub resolution : String → Bool → Option (Contributor A) → Option (Resolution A)
  resolution key enforced none = none
  resolution key enforced (some c) = elim (lookup key c.settings) [
    | none ↦ none
    | some v ↦ some (record { value = v; source = c.source; enforced = enforced })
  ]

  -- The two returns of `resolveKey`: the enforcing contributor first.
  abbrev pub settle :
      String → Option (Contributor A) → Option (Contributor A) → Option (Resolution A)
  settle key (some c) specific = resolution key true (some c)
  settle key none specific = resolution key false specific

  -- `resolveKey`; `none` is the zero value at its end, which it calls unreachable
  unfoldable pub resolve_key : List (Contributor A) → String → Option (Resolution A)
  unfolding pick
  resolve_key chain key =
      settle key (pick (enforces key) true none chain) (pick (sets key) false none chain)

  -- The keys that the chain sets.
  unfoldable pub chain_keys : List (Contributor A) → List String
  chain_keys [] = []
  chain_keys (c ∷ chain) = keys c.settings ++ chain_keys chain

  abbrev pub record_key : String → Option (Resolution A) → Map (Resolution A) → Map (Resolution A)
  record_key key none out = out
  record_key key (some r) out = insert key r out

  -- The loop that fills the result.
  unfoldable pub resolve_keys :
      List (Contributor A) → List String → Map (Resolution A) → Map (Resolution A)
  unfolding resolve_key
  resolve_keys chain [] out = out
  resolve_keys chain (k ∷ ks) out = resolve_keys chain ks (record_key k (resolve_key chain k) out)

  -- `Resolve`
  unfoldable pub resolve : Fleet A → String → Map (Resolution A)
  unfolding resolve_keys chain_keys chain_for
  resolve f tag = let chain = chain_for f tag in resolve_keys chain (chain_keys chain) []

  -- `ResolveValues`
  unfoldable pub resolve_values : Fleet A → String → Map A
  unfolding resolve
  resolve_values f tag = map (λ e. (e.0, e.1.value)) (resolve f tag)
