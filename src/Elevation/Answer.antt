-- ===== src/Elevation/Answer.antt =====
-- One answer to a request, in time, and what it grants.
use sextant.Common.{
  ltb, if◌then◌else◌, ◌≤ℤ◌, pos, is_blank, Time, zero_time, ok, err, ◌+◌, ◌≤◌, ◌<◌, String, ◌≡◌,
  ◌≢◌, ◌↔◌, Bool, false, ◌&&◌, arith,
}
use sextant.Elevation.{
  pending, approved, denied, expired, ttl, Request, already, resolve, grants, decide, waited,
}

decide-open :
    (r : Request) (approve : Bool) (by : String) (now : Time)
    → ((s : Request) × (decide r approve by now ≡ ok s))
    → (r.state ≡ pending) × (now < r.created + ttl) × (is_blank by ≡ false)
unfolding decide
decide-open r approve by now h = ground arith

decide-answers :
    (r : Request) (approve : Bool) (by : String) (now : Time)
    → (r.state ≡ pending) × (now < r.created + ttl) × (is_blank by ≡ false)
    → (s : Request) × (decide r approve by now ≡ ok s)
unfolding decide
decide-answers r approve by now h = (
  record r { state = if approve then approved else denied; decided = now; decided_by = by },
  ground arith,
)

-- A request can be answered exactly while it is stored as pending and its window is open, by someone
-- who is named.
pub decide_iff :
    (r : Request) (approve : Bool) (by : String) (now : Time)
    → ((s : Request) × (decide r approve by now ≡ ok s))
      ↔ ((r.state ≡ pending) × (now < r.created + ttl) × (is_blank by ≡ false))
unfolding decide
decide_iff r approve by now = (decide-open r approve by now, decide-answers r approve by now)

-- Two administrators cannot give two verdicts: once an answer is recorded, every later one is
-- refused with it, whoever gives it and whenever.
pub decide-decide :
    (r s : Request) (approve again : Bool) (by other : String) (now later : Time)
    → decide r approve by now ≡ ok s
    → decide s again other later ≡ err (already (if approve then approved else denied))
unfolding decide
decide-decide r s approve again by other now later h = ground arith

-- After an answer at a time other than the zero time, an approval grants the action until the end
-- of its request's window and no longer, and a denial grants nothing.
pub grants-decide :
    (r s : Request) (approve : Bool) (by : String) (now later : Time)
    → 0 < now
    → decide r approve by now ≡ ok s
    → grants s later ≡ (approve && ltb later (r.created + ttl))
unfolding decide grants
grants-decide r s approve by now later h e = ground arith

-- A request that is not stored as expired is expired exactly when it is pending and its window has
-- ended.
pub resolve-expired_iff :
    (r : Request) (now : Time)
    → r.state ≢ expired
    → (resolve r now ≡ expired) ↔ ((r.state ≡ pending) × (r.created + ttl ≤ now))
unfolding resolve
resolve-expired_iff r now h = ground arith

-- For a request that had no time of an answer and was then answered, the time that the console
-- shows is never above the window, before the answer and after it.
pub waited-le :
    (r s : Request) (approve : Bool) (by : String) (now later : Time)
    → decide r approve by now ≡ ok s
    → r.decided ≡ zero_time
    → (waited r later ≤ℤ pos ttl) × (waited s later ≤ℤ pos ttl)
unfolding decide waited
waited-le r s approve by now later h z = ground arith
