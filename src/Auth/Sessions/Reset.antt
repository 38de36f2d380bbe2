-- ===== src/Auth/Sessions/Reset.antt =====
-- api/services/password_reset.py, `reset_password`: one write that spends the reset token and ends
-- every session of the account. The new password's hash is an argument, the mail is left out.
use synapse_canvas.Base.{
  ℕ, ◌+◌, ◌≤◌, ◌≡◌, ◌≢◌, refl, sym, ap, ◌∙◌, ◌⊎◌, inl, inr, [], ◌∷◌, arith, false, none, some, ◌==◌,
  if◌then◌else◌, Bool-cases, Option-cases,
}
use synapse_canvas.Base.Dict.{Dict, lookup, insert, lookup-insert}
use synapse_canvas.Auth.Sessions.{
  Db, User, RefreshToken, Result, ok, err, ErrorCode, reset_token_invalid, refresh_revoked,
  session_revoked, Payload, is_live, revoke_where, revoke_all_for_user, get_current_user,
  refresh_token_pair,
}
use synapse_canvas.Auth.Sessions.Outcomes.{revoked-refused}

-- The row that the `UPDATE … WHERE id = … AND token_version = …` writes.
abbrev pub with_password : User → ℕ → User
with_password user hashed_password = record user {
  hashed_password = hashed_password;
  token_version = user.token_version + 1;
}

abbrev pub change_password : Db → ℕ → User → ℕ → ℕ → Db
change_password db user_id user hashed_password now =
    (revoke_all_for_user
      (record db { users = insert user_id (with_password user hashed_password) db.users }) user_id
      now).0

unfoldable pub reset_password : Db → Result Payload → ℕ → ℕ → Db × Result (Unit {0})
reset_password db (err e) hashed_password now = (db, err reset_token_invalid)
reset_password db (ok payload) hashed_password now = elim (lookup payload.subject db.users) [
  | none ↦ (db, err reset_token_invalid)
  | some user ↦
      if payload.version == user.token_version
      then (change_password db payload.subject user hashed_password now, ok tt)
      else (db, err reset_token_invalid)
]

err_not_ok : (e : ErrorCode) → ◌≢◌ {A = Result (Unit {0})} (err e) (ok tt)
err_not_ok e h = cc

reset_password-Ends :
    (db : Db) (payload : Payload) (hashed_password now : ℕ)
    → (reset_password db (ok payload) hashed_password now ≡ (db, err reset_token_invalid))
      ⊎ ((user : User) × (lookup payload.subject db.users ≡ some user)
          × (payload.version ≡ user.token_version)
          × (reset_password db (ok payload) hashed_password now
              ≡ (change_password db payload.subject user hashed_password now, ok tt)))
unfolding reset_password
reset_password-Ends db payload hashed_password now =
    elim (Option-cases (lookup payload.subject db.users)) [
      | inl e ↦ inl (rw (e, reset_password) refl)
      | inr (user, e) ↦ elim (Bool-cases (payload.version == user.token_version)) [
        | inl v ↦ inr (user, e, ground arith, rw (e, reset_password) (rw v refl))
        | inr v ↦ inl (rw (e, reset_password) (rw v refl))
      ]
    ]

revoke_where-dead :
    (u now k : ℕ) (t : RefreshToken) (d : Dict RefreshToken)
    → lookup k (revoke_where (λ r. r.user_id == u) now d) ≡ some t
    → t.user_id ≡ u
    → is_live t ≡ false
unfolding revoke_where
revoke_where-dead u now k t [] at own = cc
revoke_where-dead u now k t (e ∷ d) at own = ground (
  arith,
  revoke_where-dead u now k t d,
  ap (λ r. r.user_id) {x = e.1} {y = t},
  ap (λ r. r.revoked_at) {x = e.1} {y = t},
)

lookup-change_password :
    (db : Db) (user_id : ℕ) (user : User) (hashed_password now : ℕ)
    → lookup user_id (change_password db user_id user hashed_password now).users
      ≡ some (with_password user hashed_password)
unfolding revoke_all_for_user
lookup-change_password db user_id user hashed_password now =
    ground (arith, lookup-insert user_id user_id (with_password user hashed_password) db.users)

old_access-refused :
    (db : Db) (p : Payload) (user : User)
    → lookup p.subject db.users ≡ some user
    → p.version ≢ user.token_version
    → get_current_user db (some (ok p)) ≡ err session_revoked
unfolding get_current_user
old_access-refused db p user at differs = rw (at, get_current_user) (ground arith)

old_reset-refused :
    (db : Db) (p : Payload) (user : User) (hashed_password now : ℕ)
    → lookup p.subject db.users ≡ some user
    → p.version ≢ user.token_version
    → reset_password db (ok p) hashed_password now ≡ (db, err reset_token_invalid)
unfolding reset_password
old_reset-refused db p user hashed_password now at differs = rw (at, reset_password) (ground arith)

-- A password reset that succeeds ends what was there before it: an access token of the account
-- from the reset token's version or an older one is refused, every refresh token of the account
-- that is in the table is refused as revoked, and the reset token itself is refused and changes
-- nothing.
pub reset_ends_sessions :
    (db : Db) (payload : Payload) (hashed_password now : ℕ)
    → let out = reset_password db (ok payload) hashed_password now in
      out.1 ≡ ok tt
      → ((p : Payload)
          → p.subject ≡ payload.subject
          → p.version ≤ payload.version
          → get_current_user out.0 (some (ok p)) ≡ err session_revoked)
        × ((p : Payload) (t : RefreshToken) (now' jti access_jti lifetime : ℕ)
            → lookup p.jti out.0.refresh_tokens ≡ some t
            → t.user_id ≡ payload.subject
            → (refresh_token_pair out.0 (ok p) now' jti access_jti lifetime).1
              ≡ err refresh_revoked)
        × ((hashed_password' now' : ℕ)
            → reset_password out.0 (ok payload) hashed_password' now'
              ≡ (out.0, err reset_token_invalid))
unfolding revoke_all_for_user
reset_ends_sessions db payload hashed_password now done =
    elim (reset_password-Ends db payload hashed_password now) [
      | inl out ↦ absurd (err_not_ok reset_token_invalid (sym (ap (λ o. o.1) out) ∙ done))
      | inr (user, found, version, out) ↦
          let db' = change_password db payload.subject user hashed_password now in
          let row = with_password user hashed_password in
          let at : lookup payload.subject db'.users ≡ some row =
            lookup-change_password db payload.subject user hashed_password now in
          rw out (
            λ p same older. old_access-refused db' p row (rw same at) (λ h. absurd (omega arith)),
            λ p t now' jti access_jti lifetime there own.
                ap (λ o. o.1)
                  (revoked-refused db' p t now' jti access_jti lifetime there
                    (revoke_where-dead payload.subject now p.jti t db.refresh_tokens there own)),
            λ hashed_password' now'.
                old_reset-refused db' payload row hashed_password' now' at
                  (λ h. absurd (omega arith)),
          )
    ]
