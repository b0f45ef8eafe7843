-- ===== src/Service/Config/Transaction.antt =====
-- internal/app/config.go: the write transaction. The working tree's
-- fleet.json, the commits of the repository and the memo of verdicts are the state; `X` is the rest.
-- JSON, the hash functions, the gate and git are parameters.
pub mod Rejection
pub mod Acceptance
use sextant.Common.{
  err, ok, Result, if◌then◌else◌, ◌==◌, is_empty, keys, ℕ, zero, suc, String, Bool, not, ◌&&◌,
  Option, none, some, List, ◌∷◌, ℕ_Testable, String_Testable,
}
use sextant.Fleet.Model.{Fleet, Device}
use sextant.Service.Action.{
  Action, Failure, wrapped, joined, conflict, ◌>>=◌, ◌>>◌, pure, gets, modify, raise, lifted,
}
use sextant.Service.Config.Shapes.{representatives, sample_hosts}
use sextant.Service.Config.Verdicts.{VerdictCache, record_keys, partition_hosts}

-- A commit: its message, and the fleet.json in it.
pub record Commit : Type 0 where
  pub message : String
  pub content : String

pub data RepoCall : Type 0 where
  read_file sync reload push : RepoCall
  write_file commit : String → RepoCall

pub record Repo (A X : Type 0) : Type 0 where
  pub file : String
  -- the newest first
  pub commits : List Commit
  pub verdicts : Option VerdictCache
  -- the published fleet
  pub snapshot : Fleet A
  pub outside : X

pub record RepoPorts (A X : Type 0) : Type 0 where
  pub attempt : RepoCall → X → Option Failure × X
  pub validate : List String → String → X → Option Failure × X
  -- the file and the commits after a sync
  pub fetched : X → String × List Commit
  pub has_remote : Bool
  pub decode : String → Result Failure (Fleet A)
  pub encode : Fleet A → Result Failure String
  pub source_key : X → Option String
  pub globals_key : Fleet A → String
  pub class_key : Fleet A → String → Device A → String
  pub verdict_key : String → String → String → String

module _ {A X : Type 0} (ports : RepoPorts A X) where
  abbrev pub answered : Option Failure → Result Failure (Unit {0})
  answered none = ok tt
  answered (some e) = err e

  unfoldable pub call : RepoCall → Action (Repo A X) (Unit {0})
  call c r =
      (answered (ports.attempt c r.outside).0, record r { outside = (ports.attempt c r.outside).1 })

  -- `gate.Validate`, on the file that was written
  unfoldable pub validate : List String → Action (Repo A X) (Option Failure)
  validate todo r =
      let (answer, x) = ports.validate todo r.file r.outside in
      (ok answer, record r { outside = x })

  -- `repo.WriteFile`
  unfoldable pub write_back : String → Action (Repo A X) (Unit {0})
  unfolding call
  write_back text = do call (write_file text); modify (λ r. record r { file = text })

  -- `repo.Commit`
  unfoldable pub commit_file : String → Action (Repo A X) (Unit {0})
  unfolding call
  commit_file msg = do
    call (commit msg)
    modify (λ r. record r { commits = record { message = msg; content = r.file } ∷ r.commits })

  -- The hosts that stand for the change.
  unfoldable pub sampled : Fleet A → List String → List String
  sampled f hosts =
      if is_empty hosts
      then representatives ports.class_key f
      else sample_hosts ports.class_key f hosts

  -- The gate's rejection: the file is restored, and the failure to restore it is loud.
  unfoldable pub roll_back : String → Failure → Action (Repo A X) (Fleet A)
  unfolding call
  roll_back orig e r = elim (ports.attempt (write_file orig) r.outside).0 [
    | none ↦
        (err e, record r { file = orig; outside = (ports.attempt (write_file orig) r.outside).1 })
    | some e' ↦ (
      err (joined e (wrapped "ROLLBACK FAILED, working tree dirty: " e')),
      record r { outside = (ports.attempt (write_file orig) r.outside).1 },
    )
  ]

  -- What follows the gate's answer.
  unfoldable pub settle :
      String → String → Fleet A → List String → Option Failure → Action (Repo A X) (Fleet A)
  unfolding roll_back commit_file
  settle orig msg f keys (some e) = roll_back orig e
  settle orig msg f keys none = do
    modify (λ r. record r { verdicts = record_keys r.verdicts keys })
    commit_file msg
    pure f

  -- The end of `applyTx`, for the hosts that are left to evaluate.
  unfoldable pub prove_and_commit :
      String
      → String
      → Fleet A
      → List String
      → List String × List String
      → Action (Repo A X) (Fleet A)
  unfolding commit_file validate settle
  prove_and_commit orig msg f hosts (todo, keys) =
      if not (is_empty hosts) && is_empty todo
      then (commit_file msg >> pure f)
      else (validate todo >>= settle orig msg f keys)

  unfoldable pub write_change :
      String → String → Fleet A → List String → String → Action (Repo A X) (Fleet A)
  unfolding write_back sampled prove_and_commit
  write_change orig msg f hosts next = do
    write_back next
    parts ← gets (λ r.
        partition_hosts ports.class_key ports.verdict_key r.verdicts f (ports.source_key r.outside)
          (ports.globals_key f) (sampled f hosts))
    prove_and_commit orig msg f (sampled f hosts) parts

  -- `applyTx`
  unfoldable pub apply_tx :
      (Fleet A → Result Failure (Fleet A)) → String → List String → Action (Repo A X) (Fleet A)
  unfolding call write_change
  apply_tx mut msg hosts = do
    call read_file
    orig ← gets (λ r. r.file)
    f0 ← lifted (ports.decode orig)
    f ← lifted (mut f0)
    next ← lifted (ports.encode f)
    if next == orig then pure f else write_change orig msg f hosts next

  -- `applyOnce`
  unfoldable pub apply_once :
      (Fleet A → Result Failure (Fleet A)) → String → List String → Action (Repo A X) (Unit {0})
  unfolding apply_tx
  apply_once mut msg hosts = do f ← apply_tx mut msg hosts; modify (λ r. record r { snapshot = f })

  abbrev pub publish : Action (Repo A X) (Unit {0})
  publish = do
    call reload
    text ← gets (λ r. r.file)
    f ← lifted (ports.decode text)
    modify (λ r. record r { snapshot = f })

  abbrev pub pushed : (Unit {0} → Action (Repo A X) (Unit {0})) → Action (Repo A X) (Unit {0})
  pushed retry r = elim (ports.attempt push r.outside).0 [
    | none ↦ (ok tt, record r { outside = (ports.attempt push r.outside).1 })
    | some conflict ↦ retry tt (record r { outside = (ports.attempt push r.outside).1 })
    | some e ↦ (err e, record r { outside = (ports.attempt push r.outside).1 })
  ]

  -- The loop of `applyWithGate`, for the tries that are left.
  unfoldable pub apply_retry :
      ℕ → (Fleet A → Result Failure (Fleet A)) → String → List String → Action (Repo A X) (Unit {0})
  unfolding apply_once
  apply_retry zero mut msg hosts = raise conflict
  apply_retry (suc tries) mut msg hosts = do
    call sync
    modify (λ r. record r {
      file = (ports.fetched r.outside).0;
      commits = (ports.fetched r.outside).1;
    })
    publish
    apply_once mut msg hosts
    pushed (λ u. apply_retry tries mut msg hosts)

  -- `applyWithGate`, with 5 tries
  unfoldable pub apply_with_gate :
      (Fleet A → Result Failure (Fleet A)) → String → List String → Action (Repo A X) (Unit {0})
  unfolding apply_retry
  apply_with_gate mut msg hosts =
      if ports.has_remote then apply_retry 5 mut msg hosts else apply_once mut msg hosts
