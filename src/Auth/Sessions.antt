-- ===== src/Auth/Sessions.antt =====
-- api/services/auth_service.py, the refresh tokens; api/dependencies.py, `get_current_user`; and
-- api/models/refresh_token.py, user.py. A token is what `decode_token` answers about it: JWT
-- signing and checking are the library's. Ids that `uuid4` gives and the time are arguments.
pub mod Families
pub mod Outcomes
pub mod Steps
pub mod Lowering
pub mod Settling
pub mod Serial
pub mod Rotation
pub mod Reset
mod Tests
use synapse_canvas.Base.{
  ℕ, ◌+◌, ◌-◌, List, [], ◌∷◌, Bool, true, false, not, ◌&&◌, Option, none, some, leb, ◌==◌,
  if◌then◌else◌, keep, length, is_some, count_if,
}
use synapse_canvas.Base.Dict.{Dict, lookup, insert, erase}

pub record User : Type 0 where
  pub email_verified_at : Option ℕ
  pub hashed_password : ℕ
  pub token_version : ℕ

-- A row of `refresh_tokens`; its `jti` is the key of the table.
pub record RefreshToken : Type 0 where
  pub user_id : ℕ
  pub family_id : ℕ
  pub expires_at : ℕ
  pub revoked_at : Option ℕ
  pub replaced_by : Option ℕ

pub record Db : Type 0 where
  pub users : Dict User
  pub refresh_tokens : Dict RefreshToken

pub data ErrorCode : Type 0 where
  not_authenticated invalid_token token_expired wrong_token_type : ErrorCode
  refresh_unknown refresh_revoked refresh_expired user_gone session_revoked : ErrorCode
  reset_token_invalid stale_data : ErrorCode

pub data Result {ℓ} (A : Type ℓ) : Type ℓ where
  ok : A → Result A
  err : ErrorCode → Result A

-- The claims "sub", "jti" and "ver".
pub record Payload : Type 0 where
  pub subject : ℕ
  pub jti : ℕ
  pub version : ℕ

pub record TokenPair : Type 0 where
  pub access : Payload
  pub refresh : Payload

abbrev pub new_token : ℕ → ℕ → ℕ → RefreshToken
new_token user_id family_id expires_at = record {
  user_id = user_id;
  family_id = family_id;
  expires_at = expires_at;
  revoked_at = none;
  replaced_by = none;
}

-- `family_id or uuid.uuid4()`: a sign-in brings an id of its own. It commits the new row.
unfoldable pub issue_token_pair : Db → ℕ → User → ℕ → ℕ → ℕ → ℕ → Db × TokenPair
issue_token_pair db user_id user family_id jti access_jti expires_at = (
  record db {
    refresh_tokens = insert jti (new_token user_id family_id expires_at) db.refresh_tokens;
  },
  record {
    access = record { subject = user_id; jti = access_jti; version = user.token_version };
    refresh = record { subject = user_id; jti = jti; version = user.token_version };
  },
)

abbrev pub is_live : RefreshToken → Bool
is_live t = not (is_some t.revoked_at)

abbrev pub revoke : ℕ → RefreshToken → RefreshToken
revoke now t = record t { revoked_at = some now }

-- `UPDATE refresh_tokens SET revoked_at … WHERE <test> AND revoked_at IS NULL`.
unfoldable pub revoke_where : (RefreshToken → Bool) → ℕ → Dict RefreshToken → Dict RefreshToken
revoke_where test now [] = []
revoke_where test now (e ∷ d) =
    (if test e.1 && is_live e.1 then (e.0, revoke now e.1) else e) ∷ revoke_where test now d

unfoldable pub revoke_family : Db → ℕ → ℕ → Db
unfolding revoke_where
revoke_family db family_id now = record db {
  refresh_tokens = revoke_where (λ t. t.family_id == family_id) now db.refresh_tokens;
}

-- What the checks of `refresh_token_pair` come to, before anything is written.
pub data Found : Type 0 where
  refused : ErrorCode → Found
  replayed : RefreshToken → Found
  accepted : RefreshToken → User → Found

-- The checks on the account that a live row belongs to.
pub account_for : Payload → RefreshToken → Option User → Found
account_for payload t none = refused user_gone
account_for payload t (some user) =
    if payload.version == user.token_version then accepted t user else refused session_revoked

pub row_found : Db → Payload → RefreshToken → ℕ → Found
unfolding account_for
row_found db payload t now =
    if is_some t.revoked_at
    then replayed t
    else if leb t.expires_at now
    then refused refresh_expired
    else account_for payload t (lookup payload.subject db.users)

-- The reads and checks, which take no lock.
unfoldable pub find_token : Db → Payload → ℕ → Found
unfolding row_found
find_token db payload now = elim (lookup payload.jti db.refresh_tokens) [
  | none ↦ refused refresh_unknown
  | some t ↦ row_found db payload t now
]

-- The row of a token after it has been exchanged for the one with id `jti`.
abbrev pub spent : ℕ → ℕ → RefreshToken → RefreshToken
spent now jti t = record t { revoked_at = some now; replaced_by = some jti }

-- The second commit: two columns of the old row, as it is by now. There is none when the row is
-- gone, for which SQLAlchemy raises `StaleDataError`.
unfoldable pub spend : Db → ℕ → ℕ → ℕ → Option Db
spend db old jti now = elim (lookup old db.refresh_tokens) [
  | none ↦ none
  | some t ↦ some (record db { refresh_tokens = insert old (spent now jti t) db.refresh_tokens })
]

-- The rotation: the new pair, committed by `issue_token_pair`, then the old row spent.
pub rotate : Db → Payload → RefreshToken → User → ℕ → ℕ → ℕ → ℕ → Db × Result TokenPair
unfolding issue_token_pair spend
rotate db payload t user now jti access_jti lifetime =
    let (db', pair) =
      issue_token_pair db payload.subject user t.family_id jti access_jti (now + lifetime) in
    elim (spend db' payload.jti jti now) [
      | none ↦ (db', err stale_data)
      | some db'' ↦ (db'', ok pair)
    ]

pub refresh_found : Db → Payload → Found → ℕ → ℕ → ℕ → ℕ → Db × Result TokenPair
unfolding rotate revoke_family
refresh_found db payload (refused e) now jti access_jti lifetime = (db, err e)
refresh_found db payload (replayed t) now jti access_jti lifetime =
    (revoke_family db t.family_id now, err refresh_revoked)
refresh_found db payload (accepted t user) now jti access_jti lifetime =
    rotate db payload t user now jti access_jti lifetime

-- A call that no other one comes between. The commits of calls that overlap are apart in `Steps`.
unfoldable pub refresh_token_pair : Db → Result Payload → ℕ → ℕ → ℕ → ℕ → Db × Result TokenPair
unfolding find_token refresh_found
refresh_token_pair db (err e) now jti access_jti lifetime = (db, err e)
refresh_token_pair db (ok payload) now jti access_jti lifetime =
    refresh_found db payload (find_token db payload now) now jti access_jti lifetime

-- Logout: silent for a bad or unknown token.
unfoldable pub revoke_refresh_token : Db → Result Payload → ℕ → Db
unfolding revoke_family
revoke_refresh_token db (err e) now = db
revoke_refresh_token db (ok payload) now = elim (lookup payload.jti db.refresh_tokens) [
  | none ↦ db
  | some t ↦ revoke_family db t.family_id now
]

-- Every session of one user; the number of rows that were live.
unfoldable pub revoke_all_for_user : Db → ℕ → ℕ → Db × ℕ
unfolding revoke_where
revoke_all_for_user db user_id now = (
  record db { refresh_tokens = revoke_where (λ t. t.user_id == user_id) now db.refresh_tokens },
  count_if (λ e. e.1.user_id == user_id && is_live e.1) db.refresh_tokens,
)

unfoldable pub purge_expired_refresh_tokens : Db → ℕ → Db × ℕ
purge_expired_refresh_tokens db now =
    let kept = keep (λ e. not (leb e.1.expires_at now)) db.refresh_tokens in
    (record db { refresh_tokens = kept }, length db.refresh_tokens - length kept)

-- The bearer of an access token; `none` is a request without one.
unfoldable pub get_current_user : Db → Option (Result Payload) → Result (ℕ × User)
get_current_user db none = err not_authenticated
get_current_user db (some (err e)) = err e
get_current_user db (some (ok payload)) = elim (lookup payload.subject db.users) [
  | none ↦ err user_gone
  | some user ↦
      if payload.version == user.token_version
      then ok (payload.subject, user)
      else err session_revoked
]
