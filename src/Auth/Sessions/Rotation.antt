-- ===== src/Auth/Sessions/Rotation.antt =====
-- api/services/auth_service.py: rotation and replay of refresh tokens, and families under them.
use synapse_canvas.Base.{
  ℕ, ◌≤◌, ◌≡◌, refl, sym, ap, subst, ◌∙◌, ◌≢◌, [], arith, false, some, Option-cases, inl, inr,
}
use synapse_canvas.Base.Dict.{Dict, lookup}
use synapse_canvas.Auth.Sessions.{
  Db, ErrorCode, User, RefreshToken, Result, ok, err, refresh_revoked, Payload, TokenPair, is_live,
  accepted, find_token, spent, revoke_family, refresh_token_pair,
}
use synapse_canvas.Auth.Sessions.Families.{live_count, live_count-revoke_family, live_count-lookup}
use synapse_canvas.Auth.Sessions.Outcomes.{refresh_token_pair-Ends, revoked-refused, rotate-spent}
use synapse_canvas.Auth.Sessions.Lowering.{
  Lowers-issue, Lowers-spend, Lowers-revoke_family, Lowers-logout, Lowers-ends_all, Lowers-purge,
}
use synapse_canvas.Auth.Sessions.Steps.{
  Pending, checked, issued, family_of, System, Choice, begins_family, Event, signs_in, accepts,
  issues, spends, stops, revokes, logs_out, ends_all, purges, Reach, begins, continues,
}
use synapse_canvas.Auth.Sessions.Serial.{Event-IsSerial, accepted_row}
use synapse_canvas.Auth.Sessions.Settling.{
  NoLive, NoCall, Serial, IsSerial, Settles, lookup-set, lookup-kept,
}

Reach-IsSerial : (f : ℕ) {start s : System} → IsSerial f start → Reach Serial start s → IsSerial f s
Reach-IsSerial f h begins = h
Reach-IsSerial f h (continues r e) = Event-IsSerial f e (Reach-IsSerial f h r)

live_at-Settles :
    (f : ℕ) (c : Pending) (s : System)
    → Settles f c s.db.refresh_tokens
    → live_count f s.db.refresh_tokens ≤ 2
live_at-Settles f (checked p t user) s h = elim (Option-cases (lookup p.jti s.db.refresh_tokens)) [
  | inl e ↦ ground arith
  | inr (r, e) ↦ ground arith
]
live_at-Settles f (issued p t jti) s h = elim (Option-cases (lookup p.jti s.db.refresh_tokens)) [
  | inl e ↦ ground arith
  | inr (r, e) ↦ ground arith
]

-- Each commit being a step, and other calls coming in between: if a sign-in begins a family that has
-- no live token, if a refresh is accepted only while no other of its family is under way, and if
-- none is cut short between its two commits, then a family never has two live tokens while none of
-- its refreshes is under way, and never three. This holds for any order of sign-ins, refreshes,
-- replays, logouts and purges from tables without calls under way.
pub Reach-one_live :
    {s : System} (f : ℕ) (start : Db)
    → live_count f start.refresh_tokens ≤ 1
    → Reach Serial (record { db = start; calls = [] }) s
    → (NoCall f s.calls → live_count f s.db.refresh_tokens ≤ 1)
      × ((call : ℕ) (c : Pending)
          → lookup call s.calls ≡ some c
          → family_of c ≡ f
          → live_count f s.db.refresh_tokens ≤ 2)
Reach-one_live {s} f start h r =
    let invariant =
      Reach-IsSerial f
        (record {
          alone = λ x x' c c' there there' own own'. absurd (ground arith);
          settling = λ x c there own. absurd (ground arith);
          at_rest = λ idle. h;
        })
        r in
    (
      invariant.at_rest,
      λ call c there own. live_at-Settles f c s (invariant.settling call c there own),
    )

-- What may come after a replay: anything but a sign-in under the same family id.
abbrev pub OtherFamily : ℕ → Choice → System → Type 0
OtherFamily f (begins_family family) s = family ≢ f
OtherFamily f _ s = Unit

-- No refresh of the family stands between its checks and its first commit.
abbrev pub NoneChecked : ℕ → Dict Pending → Type 0
NoneChecked f calls =
    (call : ℕ) (p : Payload) (t : RefreshToken) (user : User)
    → lookup call calls ≡ some (checked p t user)
    → t.family_id ≢ f

abbrev IsEnded : ℕ → System → Type 0
IsEnded f s = NoLive f s.db × NoneChecked f s.calls

accepted-other :
    (f : ℕ) (db : Db) (p : Payload) (now : ℕ) (t : RefreshToken) (user : User)
    → NoLive f db
    → find_token db p now ≡ accepted t user
    → t.family_id ≢ f
accepted-other f db p now t user dead found own =
    let (at, live) = accepted_row db p now t user found in
    ground (arith, live_count-lookup p.jti f t db.refresh_tokens at)

Event-IsEnded : (f : ℕ) {s s' : System} → Event (OtherFamily f) s s' → IsEnded f s → IsEnded f s'
Event-IsEnded f (signs_in s user_id user family jti access_jti expires_at other fresh)
      (dead, idle) =
    (
      omega (arith, (Lowers-issue f s.db user_id user family jti access_jti expires_at other).0),
      idle,
    )
Event-IsEnded f (accepts s call p now t user found fresh any) (dead, idle) = (
  dead,
  λ x p' t' user' there.
      elim (lookup-set x call (checked p' t' user') (checked p t user) s.calls there) [
        | inl (same, is) ↦
            λ own. accepted-other f s.db p now t user dead found (sym (ap family_of is) ∙ own)
        | inr (differs, before) ↦ idle x p' t' user' before
      ],
)
Event-IsEnded f (issues s call p t user jti access_jti expires_at at fresh) (dead, idle) = (
  omega (
    arith,
    (Lowers-issue f s.db p.subject user t.family_id jti access_jti expires_at
        (idle call p t user at)).0,
  ),
  λ x p' t' user' there.
      elim (lookup-set x call (checked p' t' user') (issued p t jti) s.calls there) [
        | inl (same, is) ↦ absurd (not_issued p' t' user' p t jti is)
        | inr (differs, before) ↦ idle x p' t' user' before
      ],
)
  where
    not_issued :
        (p' : Payload) (t' : RefreshToken) (user' : User) (p : Payload) (t : RefreshToken) (jti : ℕ)
        → checked p' t' user' ≢ issued p t jti
    not_issued p' t' user' p t jti h = cc
Event-IsEnded f (spends s call p t jti now at) (dead, idle) = (
  omega (arith, (Lowers-spend f s.db p.jti jti now).0),
  λ x p' t' user' there.
      idle x p' t' user' (lookup-kept x call (checked p' t' user') s.calls there),
)
Event-IsEnded f (stops s call c at any) (dead, idle) = (
  dead,
  λ x p' t' user' there.
      idle x p' t' user' (lookup-kept x call (checked p' t' user') s.calls there),
)
Event-IsEnded f (revokes s family now) (dead, idle) =
    (omega (arith, (Lowers-revoke_family f s.db family now).0), idle)
Event-IsEnded f (logs_out s decoded now) (dead, idle) =
    (omega (arith, (Lowers-logout f s.db decoded now).0), idle)
Event-IsEnded f (ends_all s user_id now) (dead, idle) =
    (omega (arith, (Lowers-ends_all f s.db user_id now).0), idle)
Event-IsEnded f (purges s now) (dead, idle) = (omega (arith, (Lowers-purge f s.db now).0), idle)

Reach-IsEnded :
    (f : ℕ) {start s : System} → IsEnded f start → Reach (OtherFamily f) start s → IsEnded f s
Reach-IsEnded f h begins = h
Reach-IsEnded f h (continues r e) = Event-IsEnded f e (Reach-IsEnded f h r)

-- Where a family has no live token, each of its tokens is refused as a replay.
NoLive-dead :
    (db : Db) (k : ℕ) (t : RefreshToken)
    → lookup k db.refresh_tokens ≡ some t
    → NoLive t.family_id db
    → is_live t ≡ false
NoLive-dead db k t at dead = ground (arith, live_count-lookup k t.family_id t db.refresh_tokens at)

-- A revoked refresh token that is presented again ends its family: the call is refused, and whatever
-- happens afterwards, commit by commit and in whatever order, short of a sign-in under the same
-- family id, every token of the family is refused as a replay. No refresh of the family stands
-- between its checks and its first commit when the family is ended.
pub replay_ends_family :
    {later : System} (db : Db) (calls : Dict Pending) (p p' : Payload) (t t' : RefreshToken)
    (now jti access_jti lifetime now' jti' access_jti' lifetime' : ℕ)
    → lookup p.jti db.refresh_tokens ≡ some t
    → is_live t ≡ false
    → NoneChecked t.family_id calls
    → Reach
        (OtherFamily t.family_id)
        (record {
          db = (refresh_token_pair db (ok p) now jti access_jti lifetime).0;
          calls = calls;
        })
        later
    → lookup p'.jti later.db.refresh_tokens ≡ some t'
    → t'.family_id ≡ t.family_id
    → ((refresh_token_pair db (ok p) now jti access_jti lifetime).1 ≡ err refresh_revoked)
      × ((refresh_token_pair later.db (ok p') now' jti' access_jti' lifetime').1
          ≡ err refresh_revoked)
unfolding revoke_family
replay_ends_family {later} db calls p p' t t' now jti access_jti lifetime now' jti' access_jti'
      lifetime' at dead idle r at' same =
    let refused = revoked-refused db p t now jti access_jti lifetime at dead in
    let ended : NoLive t.family_id (refresh_token_pair db (ok p) now jti access_jti lifetime).0 =
      ap (λ o. live_count t.family_id o.0.refresh_tokens) refused
      ∙ live_count-revoke_family now t.family_id db.refresh_tokens in
    let still : NoLive t'.family_id later.db =
      rw same ((Reach-IsEnded t.family_id (ended, idle) r).0) in
    let dead' = NoLive-dead later.db p'.jti t' at' still in
    (
      ap (λ o. o.1) refused,
      ap (λ o. o.1) (revoked-refused later.db p' t' now' jti' access_jti' lifetime' at' dead'),
    )

err_not_ok : (e : ErrorCode) (pair : TokenPair) → ◌≢◌ {A = Result TokenPair} (err e) (ok pair)
err_not_ok e pair h = cc

-- A refresh token is good once: after a refresh has succeeded, to its second commit and with no other
-- call between its reads and that commit, presenting the same token again is refused as a replay and
-- leaves its family with no live token.
pub refresh_once :
    (db : Db) (p : Payload) (pair : TokenPair)
    (now jti access_jti lifetime now' jti' access_jti' lifetime' : ℕ)
    → let first = refresh_token_pair db (ok p) now jti access_jti lifetime in
      let second = refresh_token_pair first.0 (ok p) now' jti' access_jti' lifetime' in
      first.1 ≡ ok pair
      → (second.1 ≡ err refresh_revoked)
        × ((t : RefreshToken) × (lookup p.jti db.refresh_tokens ≡ some t)
            × NoLive t.family_id second.0)
unfolding revoke_family
refresh_once db p pair now jti access_jti lifetime now' jti' access_jti' lifetime' done =
    elim (refresh_token_pair-Ends db p now jti access_jti lifetime) [
      | inl (e, out) ↦ absurd (err_not_ok e pair (sym (ap (λ o. o.1) out) ∙ done))
      | inr (inl (t, at, dead, out)) ↦
          absurd (err_not_ok refresh_revoked pair (sym (ap (λ o. o.1) out) ∙ done))
      | inr (inr (t, user, at, live, later, found, version, out)) ↦
          let first = refresh_token_pair db (ok p) now jti access_jti lifetime in
          let second = refresh_token_pair first.0 (ok p) now' jti' access_jti' lifetime' in
          let (r, same, row) = rotate-spent db p t user now jti access_jti lifetime at in
          let again =
            revoked-refused first.0 p (spent now jti r) now' jti' access_jti' lifetime' (rw out row)
              refl in
          (
            ap (λ o. o.1) again,
            (
              t,
              at,
              subst (λ k. NoLive k second.0) same
                  (ap (λ o. live_count r.family_id o.0.refresh_tokens) again
                    ∙ live_count-revoke_family now' r.family_id first.0.refresh_tokens),
            ),
          )
    ]
