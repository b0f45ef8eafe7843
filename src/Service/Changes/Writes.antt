-- ===== src/Service/Changes/Writes.antt =====
-- Methods that refine the machine on the store: what each step of a method does to it.
use sextant.Common.{
  arith, Bool-cases, Option-cases, is_slug, String, ◌≡◌, refl, ◌∙◌, inl, inr, Bool, true, false,
  Option, none, some, List,
}
use sextant.Common.{Result, ok, err, true, false, none, some, inl, inr}
use sextant.Change.{
  invalid_id, no_title, unknown_status, illegal_step, ChangeRequest, Status, transition,
  can_transition,
}
use sextant.Change.Flow.{transition-ok}
use sextant.Service.Action.{Action, Failure, ◌>>=◌, ◌>>◌, raise_if, after, Gives}
use sextant.Service.Changes.World.{
  World, Ports, call, told, answered, find_change, save_change, store_put, must_get, step_to,
  get_change, put_change, with_outside,
}
use sextant.Service.Changes.Machine.{more, stay, Edges, Step, Runs, SameOrigin, find-id}
use sextant.Service.Changes.Frame.{Keeps}

-- Started on the store `s`, the method leaves a store that the machine reaches.
pub record Writes {A X B : Type 0} (e : Edges) (s : List ChangeRequest) (m : Action (World A X) B)
    : Type 0 where
  pub run : (w : World A X) → w.store ≡ s → Runs e s (m w).1.store

-- `d` is `c` after a legal step to a status.
pub record IsStep (c : ChangeRequest) (to : Status) (d : ChangeRequest) : Type 0 where
  pub origin : SameOrigin c d
  pub status : d.status ≡ to
  pub edge : can_transition c.status to ≡ true

module _ {A X : Type 0} (ports : Ports A X) where
  must_get-Keeps : (id : String) → Keeps (must_get ports id)
  unfolding must_get call
  must_get-Keeps id w = elim (Bool-cases (is_slug id)) [
    | inl b ↦ elim (Option-cases (ports.attempt get_change w.outside).0) [
      | inl n ↦ elim (Option-cases (find_change id w.store)) [
        | inl f ↦ rw (b, n, f, must_get) record { eq = refl }
        | inr (c, f) ↦ rw (b, n, f, must_get) record { eq = refl }
      ]
      | inr (x, n) ↦ rw (b, n, must_get) record { eq = refl }
    ]
    | inr b ↦ rw (b, must_get) record { eq = refl }
  ]

  pub must_get-Gives :
      (id : String) (w : World A X) (c : ChangeRequest)
      → (must_get ports id w).0 ≡ ok c
      → find_change id w.store ≡ some c
  unfolding must_get call
  must_get-Gives id w c h = elim (Bool-cases (is_slug id)) [
    | inl b ↦ elim (Option-cases (ports.attempt get_change w.outside).0) [
      | inl n ↦ elim (Option-cases (find_change id w.store)) [
        | inl f ↦ absurd (cc (rw (b, n, f, must_get) at h))
        | inr (d, f) ↦ cc (f, rw (b, n, f, must_get) at h)
      ]
      | inr (x, n) ↦ absurd (cc (rw (b, n, must_get) at h))
    ]
    | inr b ↦ absurd (cc (rw (b, must_get) at h))
  ]

  pub step_to-Keeps : (c : ChangeRequest) (to : Status) → Keeps (step_to ports c to)
  unfolding step_to
  step_to-Keeps c to w = record { eq = refl }

  pub step_to-Gives : (c : ChangeRequest) (to : Status) → Gives (IsStep c to) (step_to ports c to)
  unfolding step_to
  step_to-Gives c to w d h = moved (transition c to (ports.clock w.outside).0) refl h
    where
      moved :
          (r : Result _ ChangeRequest)
          → transition c to (ports.clock w.outside).0 ≡ r
          → told r ≡ ok d
          → IsStep c to d
      moved (ok d') q k =
          let (eq, edge, known) = transition-ok c to (ports.clock w.outside).0 q in
          record { origin = ground arith; status = ground arith; edge = edge }
      moved (err (unknown_status t)) q k = absurd (cc)
      moved (err (illegal_step t u)) q k = absurd (cc)
      moved (err (invalid_id t)) q k = absurd (cc)
      moved (err no_title) q k = absurd (cc)

module _ {A X : Type 0} (e : Edges) (s : List ChangeRequest) where
  pub kept : {B : Type 0} {m : Action (World A X) B} → Keeps m → Writes e s m
  kept h = record { run = λ w p. rw ((h w).eq ∙ p) stay }

  module _ {B C : Type 0} (m : Action (World A X) B) (f : B → Action (World A X) C) where
    keep_after :
        (P : B → Type 0) (r : Result Failure B × World A X)
        → r.1.store ≡ s
        → ((b : B) → r.0 ≡ ok b → P b)
        → ((b : B) → P b → Writes e s (f b))
        → Runs e s (after r f).1.store
    keep_after P (ok b, t) p g h = (h b (g b refl)).run t p
    keep_after P (err x, t) p g h = rw p stay

    pub keep_given :
        (P : B → Type 0)
        → Keeps m
        → Gives P m
        → ((b : B) → P b → Writes e s (f b))
        → Writes e s (m >>= f)
    keep_given P k g h = record { run = λ w p. keep_after P (m w) ((k w).eq ∙ p) (g w) h }

    pub keep_then : Keeps m → ((b : B) → Writes e s (f b)) → Writes e s (m >>= f)
    keep_then k h = keep_given (λ b. Unit {0}) k (λ w b q. tt) (λ b u. h b)

    after_keep :
        (r : Result Failure B × World A X)
        → Runs e s r.1.store
        → ((b : B) → Keeps (f b))
        → Runs e s (after r f).1.store
    after_keep (ok b, t) q h = rw ((h b t).eq) q
    after_keep (err x, t) q h = q

    pub then_keep : Writes e s m → ((b : B) → Keeps (f b)) → Writes e s (m >>= f)
    then_keep q h = record { run = λ w p. after_keep (m w) (q.run w p) h }

  pub guard :
      {B : Type 0} (b : Bool) (x : Failure) (k : Action (World A X) B)
      → (b ≡ false → Writes e s k)
      → Writes e s (raise_if b x >> k)
  guard true x k h = record { run = λ w p. rw p stay }
  guard false x k h = record { run = (h refl).run }

  module _ (ports : Ports A X) where
    pub store_put-Writes :
        (d : ChangeRequest) → Step e s (save_change d s) → Writes e s (store_put ports d)
    unfolding store_put call
    store_put-Writes d st = record {
      run = λ w p. stored w p (ports.attempt put_change w.outside).0;
    }
      where
        stored :
            (w : World A X)
            → w.store ≡ s
            → (o : Option Failure)
            → Runs e s
                (after
                  (answered o, with_outside (ports.attempt put_change w.outside).1 w)
                  (λ u v. (ok tt, record v { store = save_change d v.store }))).1.store
        stored w p none = rw p (more stay st)
        stored w p (some x) = rw p stay

    -- A method that looks its change up.
    pub looked_up :
        {B : Type 0} (id : String) (f : ChangeRequest → Action (World A X) B)
        → ((c : ChangeRequest) → find_change id s ≡ some c → c.id ≡ id → Writes e s (f c))
        → Writes e s (must_get ports id >>= f)
    looked_up id f h = record {
      run = λ w p.
          keep_after (must_get ports id) f (λ c. find_change id s ≡ some c) (must_get ports id w)
            ((must_get-Keeps ports id w).eq ∙ p) (λ c q. rw (← p) (must_get-Gives ports id w c q))
            (λ c q. h c q (find-id id s c q));
    }
