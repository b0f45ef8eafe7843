-- ===== src/Service/Config/Verdicts.antt =====
-- internal/app/verdicts.go: the shapes that the gate has accepted. `verdictKey` is a hash: the
-- parameter `verdict_key`.
pub mod Bounds
use sextant.Common.{
  ltb, if◌then◌else◌, ◌==◌, length, keep, all, contains, keys, ℕ, String, Bool, false, not, Option,
  none, some, List, [], ◌∷◌, ◌++◌, ℕ_Testable, String_Testable,
}
use sextant.Fleet.Model.{Fleet, Device}
use sextant.Service.Config.Shapes.{class_key_of}

abbrev pub max_verdicts : ℕ
max_verdicts = 4096

-- `verdictCache`: a set, and its items in the order of their insertion
pub record VerdictCache : Type 0 where
  pub seen : List String
  pub order : List String

-- `newVerdictCache`
abbrev pub new_verdict_cache : VerdictCache
new_verdict_cache = record { seen = []; order = [] }

-- `known`, with `none` for nil
unfoldable pub known : Option VerdictCache → String → Bool
known none key = false
known (some c) key = contains c.seen key

-- `delete(c.seen, k)`
abbrev pub without : String → List String → List String
without k ks = keep (λ j. not (j == k)) ks

-- The loop of `record` over the keys.
unfoldable pub add_all : List String → VerdictCache → VerdictCache
add_all [] c = c
add_all (k ∷ ks) c =
    add_all ks
      (if contains c.seen k then c else record { seen = k ∷ c.seen; order = c.order ++ k ∷ [] })

-- The loop of `record` that drops the oldest.
unfoldable pub evict : ℕ → List String → List String → VerdictCache
evict max seen [] = record { seen = seen; order = [] }
evict max seen (k ∷ ks) =
    let rest = evict max (without k seen) ks in
    if ltb max (length (k ∷ ks)) then rest else record { seen = seen; order = k ∷ ks }

-- `record`
unfoldable pub record_keys : Option VerdictCache → List String → Option VerdictCache
unfolding add_all evict
record_keys none keys = none
record_keys (some c) [] = some c
record_keys (some c) (k ∷ ks) =
    let added = add_all (k ∷ ks) c in some (evict max_verdicts added.seen added.order)

module _ {A : Type 0} (class_key : Fleet A → String → Device A → String)
    (verdict_key : String → String → String → String) where
  -- The loop of `partitionHosts`: the hosts to evaluate, and the keys of all of them.
  unfoldable pub partition_from :
      Option VerdictCache → Fleet A → String → String → List String → List String × List String
  unfolding class_key_of known
  partition_from c f source globals [] = ([], [])
  partition_from c f source globals (h ∷ hs) =
      let rest = partition_from c f source globals hs in
      let class = class_key_of class_key f h in
      let k = verdict_key source globals class in
      if class == ""
      then (h ∷ rest.0, rest.1)
      else (if known c k then rest.0 else h ∷ rest.0, k ∷ rest.1)

  -- `partitionHosts`; `source` is the answer of `SourceKey`, `none` where there is none or an error,
  -- and `globals` is `GeneratorGlobalsKey`
  unfoldable pub partition_hosts :
      Option VerdictCache
      → Fleet A
      → Option String
      → String
      → List String
      → List String × List String
  unfolding partition_from
  partition_hosts none f source globals hosts = (hosts, [])
  partition_hosts (some c) f none globals hosts = (hosts, [])
  partition_hosts (some c) f (some source) globals hosts =
      if source == "" then (hosts, []) else partition_from (some c) f source globals hosts
