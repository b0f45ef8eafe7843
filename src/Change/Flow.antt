-- ===== src/Change/Flow.antt =====
-- The status flow of change requests: what a history of transitions can reach.
use sextant.Common.{refl, ◌∙◌, sym, ap, Time, ok, ◌≡◌, ◌≢◌, ◌⊎◌, true, List, [], ◌∷◌}
use sextant.Change.{
  arith, Status, draft, building, ready, merged, abandoned, other, is_known, can_transition,
  ChangeRequest, transition,
}

-- A successful transition changes the status and the time of the last change alone, and follows an
-- edge of the flow.
pub transition-ok :
    (c : ChangeRequest) (to : Status) (now : Time) {d : ChangeRequest}
    → transition c to now ≡ ok d
    → (d ≡ record c { status = to; updated = now })
      × (can_transition c.status to ≡ true)
      × (is_known to ≡ true)
unfolding transition
transition-ok c to now h = ground arith

edge_from : (s to : Status) → can_transition s to ≡ true → (s ≢ merged) × (s ≢ abandoned)
unfolding can_transition
edge_from draft to h = ground arith
edge_from s to h = ground arith

-- Merged and abandoned changes stay as they are: no transition leaves them.
pub transition-terminal :
    (c : ChangeRequest) (to : Status) (now : Time)
    → (c.status ≡ merged) ⊎ (c.status ≡ abandoned)
    → (d : ChangeRequest) → transition c to now ≢ ok d
transition-terminal c to now t d h = ground (arith, transition-ok c to now h, edge_from c.status to)

-- The statuses that a change has had, the latest first, after a run of successful transitions.
pub data History (start : ChangeRequest) : ChangeRequest → List Status → Type 0 where
  opened : History start start (start.status ∷ [])
  moved :
      {c d : ChangeRequest} {trail : List Status} (to : Status) (now : Time)
      → History start c trail
      → transition c to now ≡ ok d
      → History start d (to ∷ trail)

-- How a status was come by.
record IsExplained (s : Status) (trail : List Status) : Type 0 where
  top : (t : List Status) × (trail ≡ s ∷ t)
  built : s ≡ ready → (t : List Status) × (trail ≡ ready ∷ building ∷ t)
  landed : s ≡ merged → (t : List Status) × (trail ≡ merged ∷ ready ∷ building ∷ t)

into_ready : (s : Status) → can_transition s ready ≡ true → s ≡ building
unfolding can_transition
into_ready (other s) h = ground arith
into_ready draft h = ground arith
into_ready s h = ground arith

into_merged : (s : Status) → can_transition s merged ≡ true → s ≡ ready
unfolding can_transition
into_merged (other s) h = ground arith
into_merged draft h = ground arith
into_merged s h = ground arith

ready_trail :
    {s to : Status} {t trail : List Status}
    → can_transition s to ≡ true
    → to ≡ ready
    → trail ≡ s ∷ t
    → to ∷ trail ≡ ready ∷ building ∷ t
ready_trail {s} {to} edge r p = cc (into_ready s (rw r at edge))

merged_trail :
    {to : Status} {t trail : List Status}
    → to ≡ merged
    → trail ≡ ready ∷ building ∷ t
    → to ∷ trail ≡ merged ∷ ready ∷ building ∷ t
merged_trail m p = cc

History-IsExplained :
    {start c : ChangeRequest} {trail : List Status}
    → start.status ≡ draft
    → History start c trail
    → IsExplained c.status trail
History-IsExplained {start} e opened = record {
  top = ([], refl);
  built = λ r. absurd (cc);
  landed = λ m. absurd (cc);
}
History-IsExplained e (moved {c} {d} {trail} to now h t) =
    let (same_but, edge, _) = transition-ok c to now t in
    let before = History-IsExplained e h in
    let arrived : d.status ≡ to = ap (λ (x : ChangeRequest). x.status) same_but in
    record {
      top = (trail, rw arrived);
      built = λ r. (before.top.0, ready_trail edge (sym arrived ∙ r) before.top.1);
      landed = λ m.
          let now_merged : to ≡ merged = sym arrived ∙ m in
          let (t0, p) = before.built (into_merged c.status (rw now_merged at edge)) in
          (t0, merged_trail now_merged p);
    }

-- A change that was opened as a draft is merged only from ready, and is ready only from building:
-- whatever its history, the last statuses before a merge are the build and the approval.
pub merged-was_built :
    {start c : ChangeRequest} {trail : List Status}
    → start.status ≡ draft
    → History start c trail
    → c.status ≡ merged
    → (t : List Status) × (trail ≡ merged ∷ ready ∷ building ∷ t)
merged-was_built e h m = (History-IsExplained e h).landed m
