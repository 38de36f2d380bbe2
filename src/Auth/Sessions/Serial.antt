-- ===== src/Auth/Sessions/Serial.antt =====
-- api/services/auth_service.py: refreshes of one family that do not overlap.
use synapse_canvas.Base.{
  ℕ, ◌≡◌, ◌≢◌, sym, ap, subst, ◌∙◌, arith, true, none, some, ◌==◌, Bool-cases, inl, inr,
}
use synapse_canvas.Base.Dict.{lookup, insert, erase, lookup-insert}
use synapse_canvas.Auth.Sessions.{
  Db, User, RefreshToken, Payload, is_live, new_token, accepted, refused, replayed, find_token,
  issue_token_pair, spend,
}
use synapse_canvas.Auth.Sessions.Families.{live_count-insert}
use synapse_canvas.Auth.Sessions.Outcomes.{find_token-Checked}
use synapse_canvas.Auth.Sessions.Lowering.{
  Lowers-issue, Lowers-spend, Lowers-revoke_family, Lowers-logout, Lowers-ends_all, Lowers-purge,
  live_count-spend,
}
use synapse_canvas.Auth.Sessions.Steps.{
  Pending, checked, issued, family_of, System, or_same, Event, signs_in, accepts, issues, spends,
  stops, revokes, logs_out, ends_all, purges,
}
use synapse_canvas.Auth.Sessions.Settling.{
  NoLive, NoCall, Serial, IsSerial, IsSerial-Lowers, IsSerial-ends, NoCall-insert, lookup-set,
}

-- A call of another family that goes on.
IsSerial-moves :
    (f call : ℕ) (c c' : Pending) (s : System)
    → lookup call s.calls ≡ some c
    → family_of c ≢ f
    → family_of c' ≢ f
    → IsSerial f s
    → IsSerial f (record s { calls = insert call c' s.calls })
IsSerial-moves f call c c' s at other other' h =
    let old : (x : ℕ) (d : Pending)
        → lookup x (insert call c' s.calls) ≡ some d
        → family_of d ≡ f
        → lookup x s.calls ≡ some d =
      λ x d there own. elim (lookup-set x call d c' s.calls there) [
        | inl (same, is) ↦ absurd (other' (sym (ap family_of is) ∙ own))
        | inr (differs, before) ↦ before
      ] in
    record {
      alone = λ x x' d d' there there' own own'.
          h.alone x x' d d' (old x d there own) (old x' d' there' own') own own';
      settling = λ x d there own. h.settling x d (old x d there own) own;
      at_rest = λ idle. h.at_rest (NoCall-insert f call c' s.calls (inr (c, at, other)) idle);
    }

-- A refresh whose checks pass while no other of its family is under way.
IsSerial-accepts :
    (f call : ℕ) (p : Payload) (now : ℕ) (t : RefreshToken) (user : User) (s : System)
    → lookup p.jti s.db.refresh_tokens ≡ some t
    → is_live t ≡ true
    → lookup call s.calls ≡ none
    → NoCall t.family_id s.calls
    → IsSerial f s
    → IsSerial f (record s { calls = insert call (checked p t user) s.calls })
IsSerial-accepts f call p now t user s at live fresh idle h =
    let new = checked p t user in
    record {
      alone = λ x x' d d' there there' own own'. elim (lookup-set x call d new s.calls there) [
        | inl (same, is) ↦ elim (lookup-set x' call d' new s.calls there') [
          | inl (same', is') ↦ same ∙ sym same'
          | inr (differs, before) ↦ absurd (idle x' d' before (own' ∙ (sym own ∙ ap family_of is)))
        ]
        | inr (differs, before) ↦ elim (lookup-set x' call d' new s.calls there') [
          | inl (same', is') ↦ absurd (idle x d before (own ∙ (sym own' ∙ ap family_of is')))
          | inr (differs', before') ↦ h.alone x x' d d' before before' own own'
        ]
      ];
      settling = λ x d there own. elim (lookup-set x call d new s.calls there) [
        | inr (differs, before) ↦ h.settling x d before own
        | inl (same, is) ↦
            let family : t.family_id ≡ f = sym (ap family_of is) ∙ own in
            let few = h.at_rest (subst (λ k. NoCall k s.calls) family idle) in
            rw is (rw at (ground arith))
      ];
      at_rest = λ still. h.at_rest (NoCall-insert f call new s.calls (inl fresh) still);
    }

-- The first commit of a refresh.
IsSerial-issues :
    (f call : ℕ) (p : Payload) (t : RefreshToken) (user : User) (jti access_jti expires_at : ℕ)
    (s : System)
    → lookup call s.calls ≡ some (checked p t user)
    → lookup jti s.db.refresh_tokens ≡ none
    → IsSerial f s
    → IsSerial f (record {
      db = (issue_token_pair s.db p.subject user t.family_id jti access_jti expires_at).0;
      calls = insert call (issued p t jti) s.calls;
    })
unfolding issue_token_pair
IsSerial-issues f call p t user jti access_jti expires_at s at fresh h =
    elim (Bool-cases (t.family_id == f)) [
      | inr e ↦
          let other : t.family_id ≢ f = λ k. ground arith in
          let db = (issue_token_pair s.db p.subject user t.family_id jti access_jti expires_at).0 in
          IsSerial-moves f call (checked p t user) (issued p t jti) (record s { db = db }) at other
            other
            (IsSerial-Lowers f s db
              (Lowers-issue f s.db p.subject user t.family_id jti access_jti expires_at other) h)
      | inl e ↦
          let own : t.family_id ≡ f = ground arith in
          let here : (x : ℕ) (d : Pending)
              → lookup x (insert call (issued p t jti) s.calls) ≡ some d
              → family_of d ≡ f
              → (x ≡ call) × (d ≡ issued p t jti) =
            λ x d there own'. elim (lookup-set x call d (issued p t jti) s.calls there) [
              | inl both ↦ both
              | inr (differs, before) ↦
                  absurd (differs (h.alone x call d (checked p t user) before at own' own))
            ] in
          let row = new_token p.subject t.family_id expires_at in
          let rows = s.db.refresh_tokens in
          record {
            alone =
                λ x x' d d' there there' a b. (here x d there a).0 ∙ sym (here x' d' there' b).0;
            settling = λ x d there own'. rw (here x d there own').1 (
                ground (
                  arith,
                  h.settling call (checked p t user) at own,
                  live_count-insert f jti row rows,
                  lookup-insert p.jti jti row rows,
                  ap (λ k. lookup k rows) {x = p.jti} {y = jti},
                ));
            at_rest = λ idle. absurd (
                idle call (issued p t jti)
                  (ground (arith, lookup-insert call call (issued p t jti) s.calls)) own);
          }
    ]

-- The second.
IsSerial-spends :
    (f call : ℕ) (p : Payload) (t : RefreshToken) (jti now : ℕ) (s : System)
    → lookup call s.calls ≡ some (issued p t jti)
    → IsSerial f s
    → IsSerial f
        (record { db = or_same s.db (spend s.db p.jti jti now); calls = erase call s.calls })
IsSerial-spends f call p t jti now s at h =
    let db = or_same s.db (spend s.db p.jti jti now) in
    IsSerial-ends f call (issued p t jti) (record s { db = db }) at
      (λ own. live_count-spend f s.db p.jti jti now (h.settling call (issued p t jti) at own))
      (IsSerial-Lowers f s db (Lowers-spend f s.db p.jti jti now) h)

IsSerial-signs_in :
    (f : ℕ) (s : System) (user_id : ℕ) (user : User) (family jti access_jti expires_at : ℕ)
    → NoLive family s.db
    → NoCall family s.calls
    → IsSerial f s
    → IsSerial f
        (record s { db = (issue_token_pair s.db user_id user family jti access_jti expires_at).0 })
unfolding issue_token_pair
IsSerial-signs_in f s user_id user family jti access_jti expires_at dead idle h =
    elim (Bool-cases (family == f)) [
      | inr e ↦
          IsSerial-Lowers f s
            (issue_token_pair s.db user_id user family jti access_jti expires_at).0
            (Lowers-issue f s.db user_id user family jti access_jti expires_at (λ k. ground arith))
            h
      | inl e ↦
          let own : family ≡ f = ground arith in
          let idle' = subst (λ k. NoCall k s.calls) own idle in
          record {
            alone = h.alone;
            settling = λ x d there own'. absurd (idle' x d there own');
            at_rest = λ still. ground (
              arith,
              subst (λ k. NoLive k s.db) own dead,
              live_count-insert f jti (new_token user_id family expires_at) s.db.refresh_tokens,
            );
          }
    ]

pub accepted_row :
    (db : Db) (p : Payload) (now : ℕ) (t : RefreshToken) (user : User)
    → find_token db p now ≡ accepted t user
    → (lookup p.jti db.refresh_tokens ≡ some t) × (is_live t ≡ true)
accepted_row db p now t user h = elim (find_token-Checked db p now) [
  | inl (e, out) ↦ absurd (refused_not e t user (sym out ∙ h))
  | inr (inl (r, at, dead, out)) ↦ absurd (replayed_not r t user (sym out ∙ h))
  | inr (inr (r, u, at, live, later, found, version, out)) ↦
      let same = row_eq r t u user (sym out ∙ h) in
      (at ∙ ap some same, subst (λ k. is_live k ≡ true) same live)
]
  where
    refused_not : (e : _) (t : RefreshToken) (user : User) → refused e ≢ accepted t user
    refused_not e t user h = cc

    replayed_not : (r t : RefreshToken) (user : User) → replayed r ≢ accepted t user
    replayed_not r t user h = cc

    row_eq : (r t : RefreshToken) (u user : User) → accepted r u ≡ accepted t user → r ≡ t
    row_eq r t u user h = cc

pub Event-IsSerial : (f : ℕ) {s s' : System} → Event Serial s s' → IsSerial f s → IsSerial f s'
Event-IsSerial f (signs_in s user_id user family jti access_jti expires_at (dead, idle) fresh) h =
    IsSerial-signs_in f s user_id user family jti access_jti expires_at dead idle h
Event-IsSerial f (accepts s call p now t user found fresh idle) h =
    let (at, live) = accepted_row s.db p now t user found in
    IsSerial-accepts f call p now t user s at live fresh idle h
Event-IsSerial f (issues s call p t user jti access_jti expires_at at fresh) h =
    IsSerial-issues f call p t user jti access_jti expires_at s at fresh h
Event-IsSerial f (spends s call p t jti now at) h = IsSerial-spends f call p t jti now s at h
Event-IsSerial f (stops s call (issued p t jti) at whole) h = absurd (ground arith)
Event-IsSerial f (stops s call (checked p t user) at whole) h =
    IsSerial-ends f call (checked p t user) s at
      (λ own. ground (arith, h.settling call (checked p t user) at own)) h
Event-IsSerial f (revokes s family now) h =
    IsSerial-Lowers f s _ (Lowers-revoke_family f s.db family now) h
Event-IsSerial f (logs_out s decoded now) h =
    IsSerial-Lowers f s _ (Lowers-logout f s.db decoded now) h
Event-IsSerial f (ends_all s user_id now) h =
    IsSerial-Lowers f s _ (Lowers-ends_all f s.db user_id now) h
Event-IsSerial f (purges s now) h = IsSerial-Lowers f s _ (Lowers-purge f s.db now) h
