-- ===== src/Elevation.antt =====
-- internal/domain/elevation/elevation.go: a user's request for one privileged action, and an
-- administrator's answer. The state is a text in the source, written with these four values only.
pub mod Answer
use sextant.Common.{
  if◌then◌else◌, ltb_ℤ, leb_ℤ, pos, is_blank, Time, Duration, is_zero, minute, since, Result,
  refuse, ok, ℕ, ◌*◌, String, Bool, true, false, not, ◌&&◌, ◌>>=◌, ◌>>◌,
}

pub data RequestState : Type 0 where
  pending approved denied expired : RequestState

abbrev pub is_pending : RequestState → Bool
is_pending pending = true
is_pending _ = false

abbrev pub is_approved : RequestState → Bool
is_approved approved = true
is_approved _ = false

-- `TTL`: five minutes
abbrev pub ttl : ℕ
ttl = 5 * minute

pub record Request : Type 0 where
  pub id : String
  pub tag : String
  pub user : String
  pub action : String
  pub reason : String
  pub state : RequestState
  pub created : Time
  pub decided : Time
  pub decided_by : String

pub data Error : Type 0 where
  no_id no_device no_user no_creation_time : Error
  already : RequestState → Error
  no_approver : Error

-- `Valid`
unfoldable pub validate : Request → Result Error (Unit {0})
validate r = do
  refuse (is_blank r.id) no_id
  refuse (is_blank r.tag) no_device
  refuse (is_blank r.user) no_user
  refuse (is_zero r.created) no_creation_time
  ok tt

-- `Resolve`
unfoldable pub resolve : Request → Time → RequestState
resolve r now =
    if not (is_pending r.state)
    then r.state
    else if leb_ℤ (pos ttl) (since now r.created)
    then expired
    else pending

-- `Grants`
unfoldable pub grants : Request → Time → Bool
grants r now =
    is_approved r.state
    && not (is_zero r.decided)
    && ltb_ℤ (since r.decided r.created) (pos ttl)
    && ltb_ℤ (since now r.created) (pos ttl)

-- `Decide`
unfoldable pub decide : Request → Bool → String → Time → Result Error Request
unfolding resolve
decide r approve by now = do
  refuse (not (is_pending (resolve r now))) (already (resolve r now))
  refuse (is_blank by) no_approver
  ok (record r { state = if approve then approved else denied; decided = now; decided_by = by })

-- `Waited`
unfoldable pub waited : Request → Time → Duration
waited r now =
    if not (is_zero r.decided)
    then since r.decided r.created
    else if ltb_ℤ (since now r.created) (pos ttl)
    then since now r.created
    else pos ttl
