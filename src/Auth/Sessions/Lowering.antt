-- ===== src/Auth/Sessions/Lowering.antt =====
-- api/services/auth_service.py: writes that give no family a live token.
use synapse_canvas.Base.{
  ℕ, ◌+◌, ◌≤◌, ◌≡◌, ◌≢◌, ap, [], ◌∷◌, arith, Bool, keep, Option-cases, inl, inr,
}
use synapse_canvas.Base.Dict.{Dict, lookup, insert, lookup-insert}
use synapse_canvas.Auth.Sessions.{
  Db, User, RefreshToken, Result, ok, err, Payload, new_token, revoke_where, spent, spend,
  issue_token_pair, revoke_family, revoke_refresh_token, revoke_all_for_user,
  purge_expired_refresh_tokens,
}
use synapse_canvas.Auth.Sessions.Families.{
  live_in, live_at, live_count, live_count-insert, live_count-revoke_where, live_count-keep,
}
use synapse_canvas.Auth.Sessions.Steps.{or_same}

-- No more live tokens of the family than before, and under each key no more besides it.
abbrev pub Lowers : ℕ → Dict RefreshToken → Dict RefreshToken → Type 0
Lowers f d d' =
    (live_count f d' ≤ live_count f d)
    × ((k : ℕ)
        → live_count f d' + live_at f (lookup k d) ≤ live_count f d + live_at f (lookup k d'))

Lowers-refl : (f : ℕ) (d : Dict RefreshToken) → Lowers f d d
Lowers-refl f d = (omega arith, λ k. omega arith)

others-revoke_where :
    (test : RefreshToken → Bool) (now f k : ℕ) (d : Dict RefreshToken)
    → live_count f (revoke_where test now d) + live_at f (lookup k d)
      ≤ live_count f d + live_at f (lookup k (revoke_where test now d))
unfolding revoke_where
others-revoke_where test now f k [] = omega arith
others-revoke_where test now f k (e ∷ d) =
    ground (arith, others-revoke_where test now f k d, live_count-revoke_where test now f d)

Lowers-revoke_where :
    (test : RefreshToken → Bool) (now f : ℕ) (d : Dict RefreshToken)
    → Lowers f d (revoke_where test now d)
Lowers-revoke_where test now f d =
    (live_count-revoke_where test now f d, λ k. others-revoke_where test now f k d)

others-keep :
    (p : ℕ × RefreshToken → Bool) (f k : ℕ) (d : Dict RefreshToken)
    → live_count f (keep p d) + live_at f (lookup k d)
      ≤ live_count f d + live_at f (lookup k (keep p d))
others-keep p f k [] = omega arith
others-keep p f k (e ∷ d) = ground (arith, others-keep p f k d, live_count-keep p f d)

-- A row that counts for nothing is written over another, or is new.
Lowers-insert :
    (f key : ℕ) (t : RefreshToken) (d : Dict RefreshToken)
    → live_in f t ≡ 0
    → Lowers f d (insert key t d)
Lowers-insert f key t d dead = (
  omega (arith, live_count-insert f key t d),
  λ k. ground (
    arith,
    live_count-insert f key t d,
    lookup-insert k key t d,
    ap (λ x. lookup x d) {x = k} {y = key},
  ),
)

pub Lowers-issue :
    (f : ℕ) (db : Db) (user_id : ℕ) (user : User) (family jti access_jti expires_at : ℕ)
    → family ≢ f
    → Lowers f db.refresh_tokens
        (issue_token_pair db user_id user family jti access_jti expires_at).0.refresh_tokens
unfolding issue_token_pair
Lowers-issue f db user_id user family jti access_jti expires_at other =
    Lowers-insert f jti (new_token user_id family expires_at) db.refresh_tokens (ground arith)

pub Lowers-spend :
    (f : ℕ) (db : Db) (old jti now : ℕ)
    → Lowers f db.refresh_tokens (or_same db (spend db old jti now)).refresh_tokens
unfolding spend
Lowers-spend f db old jti now = elim (Option-cases (lookup old db.refresh_tokens)) [
  | inl e ↦ rw (e, spend) (Lowers-refl f db.refresh_tokens)
  | inr (t, e) ↦
      rw (e, spend) (Lowers-insert f old (spent now jti t) db.refresh_tokens (ground arith))
]

pub Lowers-revoke_family :
    (f : ℕ) (db : Db) (family now : ℕ)
    → Lowers f db.refresh_tokens (revoke_family db family now).refresh_tokens
unfolding revoke_family
Lowers-revoke_family f db family now = Lowers-revoke_where _ now f db.refresh_tokens

pub Lowers-logout :
    (f : ℕ) (db : Db) (decoded : Result Payload) (now : ℕ)
    → Lowers f db.refresh_tokens (revoke_refresh_token db decoded now).refresh_tokens
unfolding revoke_refresh_token
Lowers-logout f db (err e) now = Lowers-refl f db.refresh_tokens
Lowers-logout f db (ok p) now = elim (Option-cases (lookup p.jti db.refresh_tokens)) [
  | inl e ↦ rw (e, revoke_refresh_token) (Lowers-refl f db.refresh_tokens)
  | inr (t, e) ↦ rw (e, revoke_refresh_token) (Lowers-revoke_family f db t.family_id now)
]

pub Lowers-ends_all :
    (f : ℕ) (db : Db) (user_id now : ℕ)
    → Lowers f db.refresh_tokens (revoke_all_for_user db user_id now).0.refresh_tokens
unfolding revoke_all_for_user
Lowers-ends_all f db user_id now = Lowers-revoke_where _ now f db.refresh_tokens

pub Lowers-purge :
    (f : ℕ) (db : Db) (now : ℕ)
    → Lowers f db.refresh_tokens (purge_expired_refresh_tokens db now).0.refresh_tokens
unfolding purge_expired_refresh_tokens
Lowers-purge f db now =
    (live_count-keep _ f db.refresh_tokens, λ k. others-keep _ f k db.refresh_tokens)

-- The old row of a rotation, spent: if at most one besides it was live, at most one is.
pub live_count-spend :
    (f : ℕ) (db : Db) (old jti now : ℕ)
    → live_count f db.refresh_tokens ≤ 1 + live_at f (lookup old db.refresh_tokens)
    → live_count f (or_same db (spend db old jti now)).refresh_tokens ≤ 1
unfolding spend
live_count-spend f db old jti now h = elim (Option-cases (lookup old db.refresh_tokens)) [
  | inl e ↦ rw (e, spend) (ground arith)
  | inr (t, e) ↦
      rw (e, spend) (ground (arith, live_count-insert f old (spent now jti t) db.refresh_tokens))
]
