-- ===== src/Auth/Sessions/Tests.antt =====
-- Two sign-ins of one user, a rotation and a replay.
use synapse_canvas.Base.{ℕ, ◌≤◌, ◌≡◌, refl, [], ◌∷◌, arith, some}
use synapse_canvas.Base.Dict.{Dict, lookup, insert, erase}
use synapse_canvas.Auth.Sessions.{
  Db, User, RefreshToken, ok, err, refresh_revoked, Payload, refresh_token_pair, new_token,
  get_current_user, session_revoked, reset_token_invalid, find_token, account_for, row_found, spend,
  issue_token_pair,
}
use synapse_canvas.Auth.Sessions.Steps.{
  Pending, checked, issued, family_of, System, Choice, or_same, accepts, issues, spends, Reach,
  begins, continues,
}
use synapse_canvas.Auth.Sessions.Settling.{NoLive, NoCall, Serial}
use synapse_canvas.Auth.Sessions.Reset.{reset_password, reset_ends_sessions}
use synapse_canvas.Auth.Sessions.Families.{live_count}
use synapse_canvas.Auth.Sessions.Rotation.{Reach-one_live, replay_ends_family, refresh_once}

abbrev ann : User
ann = record { email_verified_at = some 5; hashed_password = 77; token_version = 0 }

abbrev start : Db
start = record { users = (1, ann) ∷ []; refresh_tokens = [] }

abbrev signed_in : Db
signed_in = record start { refresh_tokens = (30, new_token 1 20 900) ∷ [] }

abbrev claim : ℕ → Payload
claim jti = record { subject = 1; jti = jti; version = 0 }

abbrev rotated : Db
rotated = (refresh_token_pair signed_in (ok (claim 30)) 100 31 40 900).0

abbrev system : Db → Dict Pending → System
system db calls = record { db = db; calls = calls }

abbrev old_row : RefreshToken
old_row = new_token 1 20 900

-- The checks of a refresh, and its two commits.
abbrev after_checks : System
after_checks = system signed_in (insert 1 (checked (claim 30) old_row ann) [])

abbrev with_new_row : Db
with_new_row = (issue_token_pair signed_in 1 ann 20 31 40 1000).0

abbrev after_issue : System
after_issue = system with_new_row (insert 1 (issued (claim 30) old_row 31) after_checks.calls)

abbrev after_spend : System
after_spend =
    system (or_same with_new_row (spend with_new_row 30 31 100)) (erase 1 after_issue.calls)

no_calls : (f : ℕ) → NoCall f []
no_calls f call c there own = cc

abbrev reached : Reach Serial (system signed_in []) after_spend
unfolding find_token account_for row_found
reached =
    continues
      (continues
        (continues begins
          (accepts (system signed_in []) 1 (claim 30) 100 old_row ann refl refl (no_calls 20)))
        (issues after_checks 1 (claim 30) old_row ann 31 40 1000 refl refl))
      (spends after_issue 1 (claim 30) old_row 31 100 refl)

Reach-one_live_example :
    (NoCall 20 after_spend.calls → live_count 20 after_spend.db.refresh_tokens ≤ 1)
    × ((call : ℕ) (c : Pending)
        → lookup call after_spend.calls ≡ some c
        → family_of c ≡ 20
        → live_count 20 after_spend.db.refresh_tokens ≤ 2)
Reach-one_live_example = Reach-one_live 20 signed_in (omega arith) reached

-- Two refreshes with one token that overlap: the checks of both pass, both commit a new row, and
-- both spend the old one.
abbrev both_issued : Db
both_issued = (issue_token_pair with_new_row 1 ann 20 32 41 1000).0

abbrev once_spent : Db
once_spent = or_same both_issued (spend both_issued 30 31 100)

abbrev twice_spent : Db
twice_spent = or_same once_spent (spend once_spent 30 32 101)

abbrev Anything : Choice → System → Type 0
Anything choice s = Unit

abbrev two_calls : Dict Pending
two_calls = (1, checked (claim 30) old_row ann) ∷ (2, checked (claim 30) old_row ann) ∷ []

abbrev overlapped : Reach Anything (system signed_in []) (system twice_spent [])
unfolding find_token account_for row_found spend issue_token_pair
overlapped =
    let calls = (1, issued (claim 30) old_row 31) ∷ (2, checked (claim 30) old_row ann) ∷ [] in
    let calls' = (1, issued (claim 30) old_row 31) ∷ (2, issued (claim 30) old_row 32) ∷ [] in
    let a = accepts (system signed_in []) 1 (claim 30) 100 old_row ann refl refl tt in
    let b = accepts after_checks 2 (claim 30) 100 old_row ann refl refl tt in
    let c = issues (system signed_in two_calls) 1 (claim 30) old_row ann 31 40 1000 refl refl in
    let d = issues (system with_new_row calls) 2 (claim 30) old_row ann 32 41 1000 refl refl in
    let e = spends (system both_issued calls') 1 (claim 30) old_row 31 100 refl in
    let g =
      spends (system once_spent ((2, issued (claim 30) old_row 32) ∷ [])) 2 (claim 30) old_row 32
        101 refl in
    continues (continues (continues (continues (continues (continues begins a) b) c) d) e) g

overlapped-two_live : live_count 20 twice_spent.refresh_tokens ≡ 2
unfolding spend issue_token_pair
overlapped-two_live = refl

refresh_once_example :
    let second = refresh_token_pair rotated (ok (claim 30)) 101 32 41 900 in
    (second.1 ≡ err refresh_revoked)
    × ((t : RefreshToken) × (lookup 30 signed_in.refresh_tokens ≡ some t)
        × NoLive t.family_id second.0)
unfolding refresh_token_pair
refresh_once_example = refresh_once signed_in (claim 30) _ 100 31 40 900 101 32 41 900 refl

abbrev old : RefreshToken
old = record (new_token 1 20 900) { revoked_at = some 100; replaced_by = some 31 }

abbrev stolen : Db
stolen = record start { refresh_tokens = (30, old) ∷ (31, new_token 1 20 1000) ∷ [] }

abbrev ended : Db
ended = (refresh_token_pair stolen (ok (claim 30)) 150 33 42 900).0

replay_ends_family_example :
    ((refresh_token_pair stolen (ok (claim 30)) 150 33 42 900).1 ≡ err refresh_revoked)
    × ((refresh_token_pair ended (ok (claim 31)) 160 34 43 900).1 ≡ err refresh_revoked)
unfolding refresh_token_pair
replay_ends_family_example =
    replay_ends_family stolen [] (claim 30) (claim 31) old _ 150 33 42 900 160 34 43 900 refl refl
      (λ call p t user there. absurd (ground arith)) begins refl refl

reset_ends_sessions_example :
    ((p : Payload)
      → p.subject ≡ 1
      → p.version ≤ 0
      → get_current_user (reset_password signed_in (ok (claim 60)) 88 200).0 (some (ok p))
        ≡ err session_revoked)
    × ((p : Payload) (t : RefreshToken) (now' jti access_jti lifetime : ℕ)
        → lookup p.jti (reset_password signed_in (ok (claim 60)) 88 200).0.refresh_tokens ≡ some t
        → t.user_id ≡ 1
        → (refresh_token_pair
            (reset_password signed_in (ok (claim 60)) 88 200).0
            (ok p)
            now'
            jti
            access_jti
            lifetime).1
          ≡ err refresh_revoked)
    × ((hashed_password' now' : ℕ)
        → reset_password
            (reset_password signed_in (ok (claim 60)) 88 200).0
            (ok (claim 60))
            hashed_password'
            now'
          ≡ ((reset_password signed_in (ok (claim 60)) 88 200).0, err reset_token_invalid))
unfolding reset_password
reset_ends_sessions_example = reset_ends_sessions signed_in (claim 60) 88 200 refl
