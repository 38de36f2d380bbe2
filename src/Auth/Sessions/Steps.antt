-- ===== src/Auth/Sessions/Steps.antt =====
-- api/services/auth_service.py: calls that overlap. Each commit is a step, and so are the reads and
-- checks of a refresh, after which any other steps may come before its commits.
use synapse_canvas.Base.{ℕ, ◌≡◌, Bool, true, false, Option, none, some}
use synapse_canvas.Base.Dict.{Dict, lookup, insert, erase}
use synapse_canvas.Auth.Sessions.{
  Db, User, RefreshToken, Result, Payload, accepted, find_token, issue_token_pair, spend,
  revoke_family, revoke_refresh_token, revoke_all_for_user, purge_expired_refresh_tokens,
}

-- A refresh under way: its checks passed on this row and user; or its new row is committed, and the
-- old one is still to be spent.
pub data Pending : Type 0 where
  checked : Payload → RefreshToken → User → Pending
  issued : Payload → RefreshToken → ℕ → Pending

abbrev pub family_of : Pending → ℕ
family_of (checked p t user) = t.family_id
family_of (issued p t jti) = t.family_id

abbrev pub is_issued : Pending → Bool
is_issued (checked p t user) = false
is_issued (issued p t jti) = true

pub record System : Type 0 where
  pub db : Db
  pub calls : Dict Pending

-- What a schedule may restrict: the sign-in that begins a family, the refresh of a family that is
-- accepted, and a call that is cut short.
pub data Choice : Type 0 where
  begins_family : ℕ → Choice
  begins_refresh : ℕ → Choice
  cuts_short : Pending → Choice

-- `db` as `spend` leaves it, also where it raises.
abbrev pub or_same : Db → Option Db → Db
or_same db none = db
or_same db (some db') = db'

-- A new row has an id of its own, and so has a call. A refused refresh writes nothing; the write of
-- a replay is `revokes`, at whatever time after its read, and so may be that of a logout.
pub data Event (Allowed : Choice → System → Type 0) : System → System → Type 0 where
  signs_in :
      (s : System) (user_id : ℕ) (user : User) (family jti access_jti expires_at : ℕ)
      → Allowed (begins_family family) s
      → lookup jti s.db.refresh_tokens ≡ none
      → Event Allowed s (record s {
        db = (issue_token_pair s.db user_id user family jti access_jti expires_at).0;
      })
  accepts :
      (s : System) (call : ℕ) (p : Payload) (now : ℕ) (t : RefreshToken) (user : User)
      → find_token s.db p now ≡ accepted t user
      → lookup call s.calls ≡ none
      → Allowed (begins_refresh t.family_id) s
      → Event Allowed s (record s { calls = insert call (checked p t user) s.calls })
  issues :
      (s : System) (call : ℕ) (p : Payload) (t : RefreshToken) (user : User)
      (jti access_jti expires_at : ℕ)
      → lookup call s.calls ≡ some (checked p t user)
      → lookup jti s.db.refresh_tokens ≡ none
      → Event Allowed s (record {
        db = (issue_token_pair s.db p.subject user t.family_id jti access_jti expires_at).0;
        calls = insert call (issued p t jti) s.calls;
      })
  spends :
      (s : System) (call : ℕ) (p : Payload) (t : RefreshToken) (jti now : ℕ)
      → lookup call s.calls ≡ some (issued p t jti)
      → Event Allowed s
          (record { db = or_same s.db (spend s.db p.jti jti now); calls = erase call s.calls })
  stops :
      (s : System) (call : ℕ) (c : Pending)
      → lookup call s.calls ≡ some c
      → Allowed (cuts_short c) s
      → Event Allowed s (record s { calls = erase call s.calls })
  revokes :
      (s : System) (family now : ℕ)
      → Event Allowed s (record s { db = revoke_family s.db family now })
  logs_out :
      (s : System) (decoded : Result Payload) (now : ℕ)
      → Event Allowed s (record s { db = revoke_refresh_token s.db decoded now })
  ends_all :
      (s : System) (user_id now : ℕ)
      → Event Allowed s (record s { db = (revoke_all_for_user s.db user_id now).0 })
  purges :
      (s : System) (now : ℕ)
      → Event Allowed s (record s { db = (purge_expired_refresh_tokens s.db now).0 })

pub data Reach (Allowed : Choice → System → Type 0) (start : System) : System → Type 0 where
  begins : Reach Allowed start start
  continues : {s s' : System} → Reach Allowed start s → Event Allowed s s' → Reach Allowed start s'
