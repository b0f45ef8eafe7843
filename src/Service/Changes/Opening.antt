-- ===== src/Service/Changes/Opening.antt =====
-- What Open leaves behind when it fails.
use sextant.Common.{
  Bool-cases, Option-cases, lookup, insert, has, lookup-insert, lookup-remove, String, eq_iff, ◌≡◌,
  refl, sym, ap, ◌∙◌, ◌⊎◌, inl, inr, Bool, true, false, Option, none, some, arith,
}
use sextant.Common.{none, some, true, false, inl, inr, ok, err}
use sextant.Common.{none, some, true, false, inl, inr, ok, err}
use sextant.Common.{none, some, true, false, inl, inr, ok, err, Result}
use sextant.Change.{ChangeRequest, new}
use sextant.Service.Action.{Action, Failure, ◌>>=◌, ◌>>◌, after, lifted, raise_if}
use sextant.Service.Changes.World.{
  tried, create_branch, create_ref, get_change, call, told, problem, World, Ports, Author,
  store_put, tried, call, get_change, put_change, create_ref, delete_ref, told, create_branch,
  delete_branch, problem, with_outside,
}
use sextant.Service.Changes.Draft.{opened, open_change}

module _ {A X : Type 0} (ports : Ports A X) where
  -- What is left, `v`, where the branch that was made could not be taken away again: that branch.
  pub record IsLeaked (w v : World A X) : Type 0 where
    pub branch : String
    pub store : v.store ≡ w.store
    pub branches : (b : String) → lookup b v.branches ≡ lookup b (insert branch w.main w.branches)
    pub world : World A X
    pub error : Failure
    pub failure : delete_branch ports branch world ≡ (err error, v)

  -- The store is as it was, and so are the branches, by name.
  abbrev pub IsUndone : World A X → World A X → Type 0
  IsUndone w v = (v.store ≡ w.store) × ((b : String) → lookup b v.branches ≡ lookup b w.branches)

  -- Where a failure leaves nothing behind, or a leaked branch.
  abbrev pub CleansUp : {B : Type 0} → World A X → Result Failure B × World A X → Type 0
  CleansUp w (ok b, v) = Unit {0}
  CleansUp w (err e, v) = IsUndone w v ⊎ IsLeaked w v

  stored_or_not :
      (c : ChangeRequest) (w v : World A X)
      → v.store ≡ w.store
      → ((b : String) → lookup b v.branches ≡ lookup b (insert c.branch w.main w.branches))
      → lookup c.branch w.branches ≡ none
      → CleansUp w ((tried (store_put ports c) >>= opened ports c) v)
  unfolding store_put call opened delete_branch
  stored_or_not c w v s b f = elim (Option-cases (ports.attempt put_change v.outside).0) [
    | inl n ↦ rw (n, store_put) tt
    | inr (e, n) ↦
        rw (n, store_put) (rolled e (with_outside (ports.attempt put_change v.outside).1 v) s b)
  ]
    where
      rolled :
          (e : Failure) (u : World A X)
          → u.store ≡ w.store
          → ((b : String) → lookup b u.branches ≡ lookup b (insert c.branch w.main w.branches))
          → CleansUp w (opened ports c (err e) u)
      rolled e u s b = elim (Option-cases (ports.attempt (delete_ref c.branch) u.outside).0) [
        | inl n ↦
            rw (n, opened, delete_branch)
              (inl (
                s,
                λ k. ground (
                  arith,
                  lookup-remove c.branch k u.branches,
                  b k,
                  lookup-insert c.branch k w.main w.branches,
                  eq_iff c.branch k,
                  f,
                ),
              ))
        | inr (x, n) ↦
            rw (n, opened, delete_branch)
              (inr (record {
                branch = c.branch;
                store = s;
                branches = b;
                world = u;
                error = x;
                failure = rw (n, delete_branch) refl;
              }))
      ]

  -- A first call that leaves nothing behind.
  after_cleans :
      {B C : Type 0} (w : World A X) (r : Result Failure B × World A X)
      (f : B → Action (World A X) C)
      → ((e : Failure) → r.0 ≡ err e → IsUndone w r.1)
      → ((b : B) → r.0 ≡ ok b → CleansUp w (f b r.1))
      → CleansUp w (after r f)
  after_cleans w (ok b, v) f p q = q b refl
  after_cleans w (err e, v) f p q = inl (p e refl)

  create_branch-failed :
      (b : String) (v : World A X) (e : Failure)
      → (create_branch ports b v).0 ≡ err e
      → ((create_branch ports b v).1.store ≡ v.store)
        × ((create_branch ports b v).1.branches ≡ v.branches)
  unfolding create_branch call
  create_branch-failed b v e h = elim (Bool-cases (has b v.branches)) [
    | inl t ↦ rw (t, create_branch) (refl, refl)
    | inr t ↦ elim (Option-cases (ports.attempt (create_ref b) v.outside).0) [
      | inl n ↦ absurd (cc (rw (t, n, create_branch) at h))
      | inr (x, n) ↦ rw (t, n, create_branch) (refl, refl)
    ]
  ]

  no_entry :
      {V : Type 0} (o : Option V) → (elim o [ none ↦ false | some _ ↦ true ]) ≡ false → o ≡ none
  no_entry none h = refl
  no_entry (some v) h = absurd (cc)

  create_branch-made :
      (b : String) (v : World A X) (u : Unit {0})
      → (create_branch ports b v).0 ≡ ok u
      → ((create_branch ports b v).1.store ≡ v.store)
        × ((create_branch ports b v).1.branches ≡ insert b v.main v.branches)
        × (lookup b v.branches ≡ none)
  unfolding create_branch call
  create_branch-made b v u h = elim (Bool-cases (has b v.branches)) [
    | inl t ↦ absurd (cc (rw (t, create_branch) at h))
    | inr t ↦ elim (Option-cases (ports.attempt (create_ref b) v.outside).0) [
      | inl n ↦ (
        rw (t, n, create_branch) refl,
        rw (t, n, create_branch) refl,
        no_entry (lookup b v.branches) t,
      )
      | inr (x, n) ↦ absurd (cc (rw (t, n, create_branch) at h))
    ]
  ]

  -- What follows the check that the id is free.
  branched :
      (c : ChangeRequest) (w : World A X) (taken : Bool) (v : World A X)
      → v.store ≡ w.store
      → v.branches ≡ w.branches
      → v.main ≡ w.main
      → CleansUp w (
          (raise_if taken (problem "the change exists")
              >> (create_branch ports c.branch >> (tried (store_put ports c) >>= opened ports c)))
            v)
  branched c w taken v s b m =
      after_cleans w (raise_if taken (problem "the change exists") v) _
        (λ e q. (s, λ k. ap (lookup k) b))
        (λ u q.
          after_cleans w (create_branch ports c.branch v) _
            (λ e q.
              let (s', b') = create_branch-failed c.branch v e q in
              (s' ∙ s, λ k. ap (lookup k) (b' ∙ b)))
            (λ u q.
              let (s', b', n) = create_branch-made c.branch v u q in
              stored_or_not c w (create_branch ports c.branch v).1 (s' ∙ s)
                (λ k.
                  ap (lookup k)
                    (b' ∙ ap (λ l. insert c.branch l v.branches) m ∙ ap (insert c.branch w.main) b))
                (ap (lookup c.branch) (sym b) ∙ n)))

  -- Where Open fails, the store is as it was and so is every branch, by name, or the deletion of the
  -- branch that it made failed and that branch is all that is left.
  pub open_change-CleansUp :
      (id title : String) (a : Author) (w : World A X) → CleansUp w (open_change ports id title a w)
  unfolding open_change
  open_change-CleansUp id title a w =
      after_cleans w
        (lifted (told (new id title a.name a.subject (ports.clock w.outside).0))
          (with_outside (ports.clock w.outside).1 w))
        _ (λ e q. (refl, λ b. refl))
        (λ c q.
          after_cleans w (call ports get_change (with_outside (ports.clock w.outside).1 w)) _
            (λ e q. (refl, λ b. refl)) (λ u q. branched c w _ _ refl refl refl))
