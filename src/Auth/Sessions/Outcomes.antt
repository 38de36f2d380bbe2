-- ===== src/Auth/Sessions/Outcomes.antt =====
-- How a call of `refresh_token_pair` of api/services/auth_service.py ends.
use synapse_canvas.Base.{
  ℕ, ◌+◌, ◌<◌, ◌≡◌, sym, subst, ◌⊎◌, arith, true, false, some, leb, ◌==◌, is_some, Bool-cases,
  Option-cases, inl, inr,
}
use synapse_canvas.Base.Dict.{lookup, insert, lookup-insert}
use synapse_canvas.Auth.Sessions.{
  Db, ErrorCode, User, RefreshToken, Result, ok, err, refresh_revoked, refresh_unknown,
  refresh_expired, user_gone, session_revoked, Payload, TokenPair, is_live, revoke_family, rotate,
  Found, refused, replayed, accepted, account_for, row_found, find_token, spent, spend,
  refresh_found, refresh_token_pair, issue_token_pair, new_token,
}

-- How a refresh ends: refused with the tables as they were, refused as a replay with the family
-- revoked, or done.
abbrev pub Ends : Db → Payload → ℕ → ℕ → ℕ → ℕ → Db × Result TokenPair → Type 0
Ends db p now jti access_jti lifetime out =
    ((e : _) × (out ≡ (db, err e)))
    ⊎ ((t : RefreshToken) × (lookup p.jti db.refresh_tokens ≡ some t)
        × (is_live t ≡ false)
        × (out ≡ (revoke_family db t.family_id now, err refresh_revoked)))
    ⊎ ((t : RefreshToken) × (user : User) × (lookup p.jti db.refresh_tokens ≡ some t)
        × (is_live t ≡ true)
        × (now < t.expires_at)
        × (lookup p.subject db.users ≡ some user)
        × (p.version ≡ user.token_version)
        × (out ≡ rotate db p t user now jti access_jti lifetime))

-- What the checks come to, and why.
abbrev pub Checked : Db → Payload → ℕ → Found → Type 0
Checked db p now found =
    ((e : ErrorCode) × (found ≡ refused e))
    ⊎ ((t : RefreshToken) × (lookup p.jti db.refresh_tokens ≡ some t)
        × (is_live t ≡ false)
        × (found ≡ replayed t))
    ⊎ ((t : RefreshToken) × (user : User) × (lookup p.jti db.refresh_tokens ≡ some t)
        × (is_live t ≡ true)
        × (now < t.expires_at)
        × (lookup p.subject db.users ≡ some user)
        × (p.version ≡ user.token_version)
        × (found ≡ accepted t user))

account_for-Checked :
    (db : Db) (p : Payload) (t : RefreshToken) (now : ℕ)
    → lookup p.jti db.refresh_tokens ≡ some t
    → is_live t ≡ true
    → now < t.expires_at
    → Checked db p now (account_for p t (lookup p.subject db.users))
unfolding account_for
account_for-Checked db p t now at live fresh = elim (Option-cases (lookup p.subject db.users)) [
  | inl e ↦ inl (user_gone, rw (e, account_for))
  | inr (user, e) ↦ elim (Bool-cases (p.version == user.token_version)) [
    | inl v ↦ inr (inr (t, user, at, live, fresh, e, ground arith, rw (e, account_for) (rw v)))
    | inr v ↦ inl (session_revoked, rw (e, account_for) (rw v))
  ]
]

row_found-Checked :
    (db : Db) (p : Payload) (t : RefreshToken) (now : ℕ)
    → lookup p.jti db.refresh_tokens ≡ some t
    → Checked db p now (row_found db p t now)
unfolding row_found
row_found-Checked db p t now at = elim (Bool-cases (is_some t.revoked_at)) [
  | inl r ↦ inr (inl (t, at, ground arith, rw (r, row_found)))
  | inr r ↦ elim (Bool-cases (leb t.expires_at now)) [
    | inl e ↦ inl (refresh_expired, rw (r, row_found) (rw e))
    | inr e ↦
        rw (r, row_found) (rw e (account_for-Checked db p t now at (ground arith) (ground arith)))
  ]
]

pub find_token-Checked : (db : Db) (p : Payload) (now : ℕ) → Checked db p now (find_token db p now)
unfolding find_token
find_token-Checked db p now = elim (Option-cases (lookup p.jti db.refresh_tokens)) [
  | inl e ↦ inl (refresh_unknown, rw (e, find_token))
  | inr (t, e) ↦
      let run : find_token db p now ≡ row_found db p t now = rw (e, find_token) in
      subst (Checked db p now) (sym run) (row_found-Checked db p t now e)
]

pub refresh_token_pair-Ends :
    (db : Db) (p : Payload) (now jti access_jti lifetime : ℕ)
    → Ends db p now jti access_jti lifetime
        (refresh_token_pair db (ok p) now jti access_jti lifetime)
unfolding refresh_token_pair refresh_found
refresh_token_pair-Ends db p now jti access_jti lifetime = elim (find_token-Checked db p now) [
  | inl (e, out) ↦ inl (e, rw (out, refresh_token_pair))
  | inr (inl (t, at, dead, out)) ↦ inr (inl (t, at, dead, rw (out, refresh_token_pair)))
  | inr (inr (t, user, at, live, later, found, version, out)) ↦
      inr (inr (t, user, at, live, later, found, version, rw (out, refresh_token_pair)))
]

-- A token that has been revoked is refused, and its family with it.
pub revoked-refused :
    (db : Db) (p : Payload) (t : RefreshToken) (now jti access_jti lifetime : ℕ)
    → lookup p.jti db.refresh_tokens ≡ some t
    → is_live t ≡ false
    → refresh_token_pair db (ok p) now jti access_jti lifetime
      ≡ (revoke_family db t.family_id now, err refresh_revoked)
unfolding refresh_token_pair refresh_found find_token row_found
revoked-refused db p t now jti access_jti lifetime at dead =
    let revoked : is_some t.revoked_at ≡ true = ground arith in
    let found : find_token db p now ≡ replayed t = rw (at, find_token) (rw (revoked, row_found)) in
    rw (found, refresh_token_pair)

-- After a rotation the old row is spent.
pub rotate-spent :
    (db : Db) (p : Payload) (t : RefreshToken) (user : User) (now jti access_jti lifetime : ℕ)
    → lookup p.jti db.refresh_tokens ≡ some t
    → (r : RefreshToken) × (r.family_id ≡ t.family_id)
      × (lookup p.jti (rotate db p t user now jti access_jti lifetime).0.refresh_tokens
          ≡ some (spent now jti r))
unfolding rotate spend issue_token_pair
rotate-spent db p t user now jti access_jti lifetime at =
    let new = new_token p.subject t.family_id (now + lifetime) in
    let rows = insert jti new db.refresh_tokens in
    let row = lookup-insert p.jti jti new db.refresh_tokens in
    elim (Option-cases (lookup p.jti rows)) [
      | inl e ↦ absurd (ground arith)
      | inr (r, e) ↦ (
        r,
        ground arith,
        rw (e, rotate) (ground (arith, lookup-insert p.jti p.jti (spent now jti r) rows)),
      )
    ]
