-- ===== src/Service/Config/Transaction/Rejection.antt =====
-- What a write that fails leaves behind.
use sextant.Service.Config.Verdicts.{record_keys}
use sextant.Common.{
  String_Testable, if◌then◌else◌, ◌==◌, Bool, ◌&&◌, is_empty, not, Bool-cases, Option, List,
  Option-cases, ◌∙◌, String, ◌≡◌, refl,
}
use sextant.Common.{true, false, some, none, inl, inr, ◌∷◌, ok, err, Result}
use sextant.Fleet.Model.{Fleet}
use sextant.Service.Action.{Action, Failure, ◌>>=◌, ◌>>◌, pure, modify, lifted, after}
use sextant.Service.Config.Transaction.{
  read_file, sampled, write_file, commit, Repo, RepoPorts, RepoCall, call, apply_tx, write_change,
  prove_and_commit, settle, roll_back, commit_file, write_back, validate,
}

-- Whether a method that failed left the commits as they were.
abbrev pub FailsClean : {A X B : Type 0} → Repo A X → Result Failure B × Repo A X → Type 0
FailsClean r (ok b, r') = Unit {0}
FailsClean r (err e, r') = r'.commits ≡ r.commits

module _ {A X : Type 0} (ports : RepoPorts A X) where
  clean_from :
      {B : Type 0} (r r1 : Repo A X) (x : Result Failure B × Repo A X)
      → r1.commits ≡ r.commits
      → FailsClean r1 x
      → FailsClean r x
  clean_from r r1 (ok b, t) e c = tt
  clean_from r r1 (err f, t) e c = c ∙ e

  after-clean :
      {B C : Type 0} (r : Repo A X) (x : Result Failure B × Repo A X) (f : B → Action (Repo A X) C)
      → x.1.commits ≡ r.commits
      → ((b : B) (t : Repo A X) → FailsClean t (f b t))
      → FailsClean r (after x f)
  after-clean r (ok b, t) f e h = clean_from r t (f b t) e (h b t)
  after-clean r (err g, t) f e h = e

  -- The first call keeps the commits, and what follows fails clean.
  bind-clean :
      {B C : Type 0} (m : Action (Repo A X) B) (f : B → Action (Repo A X) C)
      → ((r : Repo A X) → (m r).1.commits ≡ r.commits)
      → ((b : B) (t : Repo A X) → FailsClean t (f b t))
      → (r : Repo A X) → FailsClean r ((m >>= f) r)
  bind-clean m f e h r = after-clean r (m r) f (e r) h

  call-commits : (c : RepoCall) (r : Repo A X) → (call ports c r).1.commits ≡ r.commits
  unfolding call
  call-commits c r = refl

  -- A commit that succeeds is the last thing that can fail.
  commit_and-clean :
      {B : Type 0} (msg : String) (b : B) (r : Repo A X)
      → FailsClean r ((commit_file ports msg >> pure b) r)
  unfolding commit_file
  commit_and-clean msg b r = committed (call ports (commit msg) r) (call-commits (commit msg) r)
    where
      committed :
          (x : Result Failure (Unit {0}) × Repo A X)
          → x.1.commits ≡ r.commits
          → FailsClean r (
              after
                (after x (λ u. modify (λ t. record t {
                  commits = record { message = msg; content = t.file } ∷ t.commits;
                })))
                (λ u. pure b))
      committed (ok u, t) e = tt
      committed (err g, t) e = e

  roll_back-clean :
      (orig : String) (e : Failure) (r : Repo A X) → FailsClean r (roll_back ports orig e r)
  unfolding roll_back
  roll_back-clean orig e r = elim (Option-cases (ports.attempt (write_file orig) r.outside).0) [
    | inl n ↦ rw (n, roll_back) refl
    | inr (g, n) ↦ rw (n, roll_back) refl
  ]

  settle-clean :
      (orig msg : String) (f : Fleet A) (keys : List String) (o : Option Failure) (r : Repo A X)
      → FailsClean r (settle ports orig msg f keys o r)
  unfolding settle
  settle-clean orig msg f keys (some e) r = roll_back-clean orig e r
  settle-clean orig msg f keys none r =
      commit_and-clean msg f (record r { verdicts = record_keys r.verdicts keys })

  prove-clean :
      (orig msg : String) (f : Fleet A) (hosts : List String) (parts : List String × List String)
      (r : Repo A X)
      → FailsClean r (prove_and_commit ports orig msg f hosts parts r)
  unfolding prove_and_commit validate
  prove-clean orig msg f hosts (todo, keys) r =
      elim (Bool-cases (not (is_empty hosts) && is_empty todo)) [
        | inl e ↦ rw (e, prove_and_commit) (commit_and-clean msg f r)
        | inr e ↦
            rw (e, prove_and_commit)
              (bind-clean (validate ports todo) (settle ports orig msg f keys) (λ t. refl)
                (settle-clean orig msg f keys) r)
      ]

  write_back-commits :
      (text : String) (r : Repo A X) → (write_back ports text r).1.commits ≡ r.commits
  unfolding write_back
  write_back-commits text r =
      written (call ports (write_file text) r) (call-commits (write_file text) r)
    where
      written :
          (x : Result Failure (Unit {0}) × Repo A X)
          → x.1.commits ≡ r.commits
          → (after x (λ u. modify (λ t. record t { file = text }))).1.commits ≡ r.commits
      written (ok u, t) e = e
      written (err g, t) e = e

  write_change-clean :
      (orig msg : String) (f : Fleet A) (hosts : List String) (next : String) (r : Repo A X)
      → FailsClean r (write_change ports orig msg f hosts next r)
  unfolding write_change
  write_change-clean orig msg f hosts next =
      bind-clean (write_back ports next) _ (write_back-commits next)
        (λ u t. prove-clean orig msg f (sampled ports f hosts) _ t)

  lifted-clean :
      {B C : Type 0} (x : Result Failure B) (f : B → Action (Repo A X) C)
      → ((b : B) (t : Repo A X) → FailsClean t (f b t))
      → (r : Repo A X) → FailsClean r ((lifted x >>= f) r)
  lifted-clean x f h r = bind-clean (lifted x) f (λ t. refl) h r

  if-clean :
      {B : Type 0} (b : Bool) (m n : Action (Repo A X) B) (r : Repo A X)
      → FailsClean r (m r)
      → FailsClean r (n r)
      → FailsClean r ((if b then m else n) r)
  if-clean true m n r p q = p
  if-clean false m n r p q = q

  apply_tx-clean :
      (mut : Fleet A → Result Failure (Fleet A)) (msg : String) (hosts : List String) (r : Repo A X)
      → FailsClean r (apply_tx ports mut msg hosts r)
  unfolding apply_tx
  apply_tx-clean mut msg hosts =
      bind-clean (call ports read_file) _ (call-commits read_file) (λ u r.
        lifted-clean (ports.decode r.file) _
          (λ f0 t.
            lifted-clean (mut f0) _
              (λ f t.
                lifted-clean (ports.encode f) _
                  (λ next t.
                    if-clean (next == r.file) (pure f) (write_change ports r.file msg f hosts next)
                      t tt (write_change-clean r.file msg f hosts next t))
                  t)
              t)
          r)

  -- A write that fails has committed nothing, whichever of its steps failed.
  pub apply_tx-rejected :
      (mut : Fleet A → Result Failure (Fleet A)) (msg : String) (hosts : List String)
      (r r' : Repo A X) (e : Failure)
      → apply_tx ports mut msg hosts r ≡ (err e, r')
      → r'.commits ≡ r.commits
  apply_tx-rejected mut msg hosts r r' e h = rw h at (apply_tx-clean mut msg hosts r)
