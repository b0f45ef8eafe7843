-- ===== src/Examples/Writes.antt =====
-- A repository with one document, and a gate that accepts or refuses.
use sextant.Common.{
  err, Bool, if◌then◌else◌, ◌==◌, length, contains, Distinct, ℕ, ◌≤◌, String, ◌≡◌, refl, ◌⊎◌, true,
  false, Option, none, some, [], ◌∷◌, arith, ℕ_Testable, String_Testable,
}
use sextant.Common.{true, false, some, none, [], ◌∷◌, ok, Result, refl}
use sextant.Fleet.Model.{Fleet, Device}
use sextant.Examples.Fleets.{fleet, machine}
use sextant.Service.Config.Transaction.{commit}
use sextant.Service.Action.{failed, Failure, rejected}
use sextant.Service.Config.Shapes.{sample_hosts, class_key_of}
use sextant.Service.Config.Shapes.Cover.{sample_hosts-Covers}
use sextant.Service.Config.Verdicts.{
  VerdictCache, known, record_keys, partition_hosts, partition_from, new_verdict_cache,
}
use sextant.Service.Config.Verdicts.Bounds.{record_keys-bound}
use sextant.Service.Config.Transaction.{
  Repo, RepoPorts, apply_tx, write_change, prove_and_commit, settle, roll_back, commit_file,
  write_back, validate, call, sampled,
}
use sextant.Service.Config.Transaction.Rejection.{apply_tx-rejected}
use sextant.Service.Config.Transaction.Acceptance.{apply_tx-IsAccepted, IsAccepted}

abbrev by_tag : Fleet ℕ → String → Device ℕ → String
by_tag f tag d = d.hardware

abbrev pub two : Fleet ℕ
two = record fleet { devices = ("pc-1", machine) ∷ ("pc-2", machine) ∷ [] }

sample_hosts-Covers_example :
    (t : String) × (contains (sample_hosts by_tag two ("pc-1" ∷ "pc-2" ∷ [])) t ≡ true)
    × (class_key_of by_tag two t ≡ class_key_of by_tag two "pc-2")
sample_hosts-Covers_example =
    sample_hosts-Covers by_tag two "pc-2" machine refl refl ("pc-1" ∷ "pc-2" ∷ []) refl

record_keys-bound_example :
    (c' : VerdictCache) × (record_keys (some new_verdict_cache) ("k" ∷ []) ≡ some c')
    × (length c'.order ≤ 4096)
    × Distinct c'.order
    × ((j : String) → known (some c') j ≡ contains c'.order j)
record_keys-bound_example =
    record_keys-bound new_verdict_cache ("k" ∷ []) (omega arith) (tt, λ j. refl)

-- The gate's answer is `answer`; a document is known by its version.
abbrev pub repo_ports : Option Failure → RepoPorts ℕ ℕ
repo_ports answer = record {
  attempt = λ c x. (none, x);
  validate = λ todo text x. (answer, x);
  fetched = λ x. ("old", []);
  has_remote = false;
  decode = λ text. ok two;
  encode = λ f. ok (if f.version == 1 then "old" else "new");
  source_key = λ x. some "tree";
  globals_key = λ f. "";
  class_key = by_tag;
  verdict_key = λ a b c. c;
}

abbrev before_write : Repo ℕ ℕ
before_write = record { file = "old"; commits = []; verdicts = none; snapshot = two; outside = 0 }

abbrev bump : Fleet ℕ → Result Failure (Fleet ℕ)
bump f = ok (record f { version = 2 })

apply_tx-rejected_example : (record before_write { file = "old" }).commits ≡ before_write.commits
apply_tx-rejected_example =
    apply_tx-rejected (repo_ports (some (rejected "no"))) bump "bump" ("pc-1" ∷ []) before_write
      (record before_write { file = "old" }) (rejected "no")
      (unfold apply_tx write_change prove_and_commit settle roll_back commit_file write_back
          validate call sampled sample_hosts partition_hosts partition_from in
        refl)

abbrev after_write : Repo ℕ ℕ
after_write = record before_write {
  file = "new";
  commits = record { message = "bump"; content = "new" } ∷ [];
}

apply_tx-IsAccepted_example :
    (f0 : Fleet ℕ) × (f : Fleet ℕ) × ((repo_ports none).decode before_write.file ≡ ok f0)
    × (bump f0 ≡ ok f)
    × (((after_write.commits ≡ before_write.commits)
          × ((repo_ports none).encode f ≡ ok before_write.file))
        ⊎ IsAccepted (repo_ports none) "bump" ("pc-1" ∷ []) f before_write after_write)
apply_tx-IsAccepted_example =
    apply_tx-IsAccepted (repo_ports none) bump "bump" ("pc-1" ∷ []) before_write after_write
      (record two { version = 2 })
      (unfold apply_tx write_change prove_and_commit settle roll_back commit_file write_back
          validate call sampled sample_hosts partition_hosts partition_from record_keys in
        refl)

abbrev ok_of : {B : Type 0} → Result Failure B → Bool
ok_of (ok b) = true
ok_of (err e) = false

-- A repository whose commits fail, and whose documents are known by their version.
abbrev no_commit : RepoPorts ℕ ℕ
no_commit = record (repo_ports none) {
  attempt = λ c x. (elim c [ commit _ ↦ some (failed "git commit") | _ ↦ none ], x);
  decode = λ text. ok (record two { version = if text == "old" then 1 else 2 });
}

-- The write fails, its retry succeeds, and nothing is committed.
retry_commits_nothing :
    (ok_of (apply_tx no_commit bump "bump" ("pc-1" ∷ []) before_write).0 ≡ false)
    × (ok_of
          (apply_tx no_commit bump "bump"
            ("pc-1" ∷ [])
            (apply_tx no_commit bump "bump" ("pc-1" ∷ []) before_write).1).0
        ≡ true)
    × ((apply_tx no_commit bump "bump"
          ("pc-1" ∷ [])
          (apply_tx no_commit bump "bump" ("pc-1" ∷ []) before_write).1).1.commits
        ≡ [])
unfolding apply_tx write_change prove_and_commit settle roll_back commit_file write_back validate
    call sampled sample_hosts partition_hosts partition_from record_keys
retry_commits_nothing = (refl, refl, refl)
