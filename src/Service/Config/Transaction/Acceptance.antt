-- ===== src/Service/Config/Transaction/Acceptance.antt =====
-- What a write that succeeds has proved of the document that it committed.
use sextant.Common.{
  String_Testable, eq_iff, ◌∙◌, ◌==◌, if◌then◌else◌, Result, Bool-cases, Option-cases, is_empty,
  keys, String, ◌≡◌, refl, sym, ap, ◌⊎◌, inl, inr, true, false, not, ◌&&◌, Option, none, some, List,
  ◌∷◌, arith,
}
use sextant.Common.{true, false, some, none, inl, inr, ◌∷◌, ok, ap, sym}
use sextant.Fleet.Model.{Fleet}
use sextant.Service.Action.{lifted-ok, ◌>>◌, Failure, pure}
use sextant.Service.Config.Transaction.{
  read_file, write_back, apply_tx, write_change, write_file, commit, Repo, RepoPorts, call,
  prove_and_commit, settle, roll_back, commit_file, validate, sampled,
}
use sextant.Service.Config.Verdicts.{record_keys, partition_hosts}

-- The commit that a write adds: the document is its content, and the hosts that are not in the memo,
-- out of the sample of the change, were accepted by the gate, unless the memo had all of them.
pub record IsAccepted {A X : Type 0} (ports : RepoPorts A X) (msg : String) (hosts : List String)
    (f : Fleet A) (r r' : Repo A X) : Type 0 where
  pub content : String
  pub encoded : ports.encode f ≡ ok content
  pub added : r'.commits ≡ record { message = msg; content = content } ∷ r.commits
  pub rest : X
  pub todo : List String
  pub drawn :
      todo
      ≡ (partition_hosts ports.class_key ports.verdict_key r.verdicts f
          (ports.source_key rest)
          (ports.globals_key f)
          (sampled ports f hosts)).0
  pub accepted :
      ((is_empty (sampled ports f hosts) ≡ false) × (is_empty todo ≡ true))
      ⊎ ((x : X) × ((ports.validate todo content x).0 ≡ none))

module _ {A X : Type 0} (ports : RepoPorts A X) where
  commit_and-ok :
      {B : Type 0} (msg : String) (b b' : B) (r r' : Repo A X)
      → (commit_file ports msg >> pure b) r ≡ (ok b', r')
      → r'.commits ≡ record { message = msg; content = r.file } ∷ r.commits
  unfolding commit_file call
  commit_and-ok msg b b' r r' h = elim (Option-cases (ports.attempt (commit msg) r.outside).0) [
    | inl n ↦ ap (λ x. x.1.commits) (sym (rw (n, commit_file, call) at h))
    | inr (e, n) ↦ absurd (cc (rw (n, commit_file, call) at h))
  ]

  rolled :
      (orig : String) (e : Failure) (f' : Fleet A) (r r' : Repo A X)
      → roll_back ports orig e r ≡ (ok f', r')
      → ⊥
  unfolding roll_back
  rolled orig e f' r r' h = elim (Option-cases (ports.attempt (write_file orig) r.outside).0) [
    | inl n ↦ cc (rw (n, roll_back) at h)
    | inr (g, n) ↦ cc (rw (n, roll_back) at h)
  ]

  settle-ok :
      (orig msg : String) (f f' : Fleet A) (keys : List String) (o : Option Failure)
      (r r' : Repo A X)
      → settle ports orig msg f keys o r ≡ (ok f', r')
      → (o ≡ none) × (r'.commits ≡ record { message = msg; content = r.file } ∷ r.commits)
  unfolding settle
  settle-ok orig msg f f' keys none r r' h =
      (refl, commit_and-ok msg f f' (record r { verdicts = record_keys r.verdicts keys }) r' h)
  settle-ok orig msg f f' keys (some e) r r' h = absurd (rolled orig e f' r r' h)

  prove-ok :
      (orig msg : String) (f f' : Fleet A) (hosts todo keys : List String) (r r' : Repo A X)
      → prove_and_commit ports orig msg f hosts (todo, keys) r ≡ (ok f', r')
      → (r'.commits ≡ record { message = msg; content = r.file } ∷ r.commits)
        × (((is_empty hosts ≡ false) × (is_empty todo ≡ true))
            ⊎ ((x : X) × ((ports.validate todo r.file x).0 ≡ none)))
  unfolding prove_and_commit validate
  prove-ok orig msg f f' hosts todo keys r r' h =
      elim (Bool-cases (not (is_empty hosts) && is_empty todo)) [
        | inl e ↦ (
          commit_and-ok msg f f' r r' (rw (e, prove_and_commit) at h),
          inl (ground arith, ground arith),
        )
        | inr e ↦
            let (o, c) =
              settle-ok orig msg f f' keys (ports.validate todo r.file r.outside).0
                (record r { outside = (ports.validate todo r.file r.outside).1 }) r'
                (rw (e, prove_and_commit, validate) at h) in
            (c, inr (r.outside, o))
      ]

  write_change-ok :
      (orig msg : String) (f f' : Fleet A) (hosts : List String) (next : String) (r r' : Repo A X)
      → ports.encode f ≡ ok next
      → write_change ports orig msg f hosts next r ≡ (ok f', r')
      → IsAccepted ports msg hosts f r r'
  unfolding write_change write_back call
  write_change-ok orig msg f f' hosts next r r' enc h =
      elim (Option-cases (ports.attempt (write_file next) r.outside).0) [
        | inr (e, n) ↦ absurd (cc (rw (n, write_change, write_back, call) at h))
        | inl n ↦
            let x = (ports.attempt (write_file next) r.outside).1 in
            let parts =
              partition_hosts ports.class_key ports.verdict_key r.verdicts f (ports.source_key x)
                (ports.globals_key f) (sampled ports f hosts) in
            let (c, a) =
              prove-ok orig msg f f' (sampled ports f hosts) parts.0 parts.1
                (record r { file = next; outside = x }) r'
                (rw (n, write_change, write_back, call) at h) in
            record {
              content = next;
              encoded = enc;
              added = c;
              rest = x;
              todo = parts.0;
              drawn = refl;
              accepted = a;
            }
      ]

  changed :
      (r : Repo A X) (f f' : Fleet A) (next msg : String) (hosts : List String) (r' : Repo A X)
      → ports.encode f ≡ ok next
      → (if next == r.file then pure f else write_change ports r.file msg f hosts next) r
        ≡ (ok f', r')
      → ((r'.commits ≡ r.commits) × (ports.encode f ≡ ok r.file))
        ⊎ IsAccepted ports msg hosts f r r'
  changed r f f' next msg hosts r' enc h = elim (Bool-cases (next == r.file)) [
    | inl e ↦ inl (ap (λ x. x.1.commits) (sym (rw e at h)), enc ∙ ap ok ((eq_iff next r.file).0 e))
    | inr e ↦ inr (write_change-ok r.file msg f f' hosts next r r' enc (rw e at h))
  ]

  rebased :
      (x : X) (r r' : Repo A X) (f : Fleet A) (msg : String) (hosts : List String)
      → ((r'.commits ≡ r.commits) × (ports.encode f ≡ ok r.file))
        ⊎ IsAccepted ports msg hosts f (record r { outside = x }) r'
      → ((r'.commits ≡ r.commits) × (ports.encode f ≡ ok r.file))
        ⊎ IsAccepted ports msg hosts f r r'
  rebased x r r' f msg hosts (inl p) = inl p
  rebased x r r' f msg hosts (inr a) = inr (record {
    content = a.content;
    encoded = a.encoded;
    added = a.added;
    rest = a.rest;
    todo = a.todo;
    drawn = a.drawn;
    accepted = a.accepted;
  })

  -- A write that succeeds has made the change to the document that was there, and has left the commits
  -- alone where the document is the same, or has added one commit of the new document that the gate
  -- accepted for the sampled hosts that the memo does not have.
  pub apply_tx-IsAccepted :
      (mut : Fleet A → Result Failure (Fleet A)) (msg : String) (hosts : List String)
      (r r' : Repo A X) (f' : Fleet A)
      → apply_tx ports mut msg hosts r ≡ (ok f', r')
      → (f0 : Fleet A) × (f : Fleet A) × (ports.decode r.file ≡ ok f0)
        × (mut f0 ≡ ok f)
        × (((r'.commits ≡ r.commits) × (ports.encode f ≡ ok r.file))
            ⊎ IsAccepted ports msg hosts f r r')
  unfolding apply_tx call
  apply_tx-IsAccepted mut msg hosts r r' f' h =
      elim (Option-cases (ports.attempt read_file r.outside).0) [
        | inr (e, n) ↦ absurd (cc (rw (n, apply_tx, call) at h))
        | inl n ↦
            let r1 = record r { outside = (ports.attempt read_file r.outside).1 } in
            let (f0, d, h1) =
              lifted-ok (ports.decode r.file) _ r1 f' r' (rw (n, apply_tx, call) at h) in
            let (f, m, h2) = lifted-ok (mut f0) _ r1 f' r' h1 in
            let (next, enc, h3) = lifted-ok (ports.encode f) _ r1 f' r' h2 in
            (
              f0,
              f,
              d,
              m,
              rebased r1.outside r r' f msg hosts (changed r1 f f' next msg hosts r' enc h3),
            )
      ]
