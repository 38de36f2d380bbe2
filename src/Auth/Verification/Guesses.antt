-- ===== src/Auth/Verification/Guesses.antt =====
-- How many guesses a verification code of api/services/auth_service.py allows.
use synapse_canvas.Base.{
  ℕ, suc, ◌+◌, ◌≤◌, ◌<◌, ◌≡◌, ◌≢◌, ◌⊎◌, inl, inr, refl, sym, subst, List, [], ◌∷◌, arith, false,
  none, some, ltb, leb, ◌==◌, is_some, length, Bool-cases, Option-cases,
}
use synapse_canvas.Base.Dict.{lookup, lookup-insert, lookup-erase}
use synapse_canvas.RateLimit.{Verdict, allowed, exceeded}
use synapse_canvas.Auth.Verification.{
  User, EmailVerificationCode, Db, Settings, verified, get_user_by_email, refusal, fail,
  delete_code, count_attempt, check_code, check_user, over_budget, verify_email,
}

module _ (hash_otp : ℕ → ℕ → ℕ) (account_key : ℕ → ℕ) (settings : Settings) where
  refusal-not_verified :
      (v : Verdict) (u : ℕ) → refusal hash_otp account_key settings v ≢ verified u
  refusal-not_verified (allowed n) u h = cc
  refusal-not_verified (exceeded n) u h = cc

  -- A failure keeps the accounts and the codes, and verifies nobody.
  fail-keeps :
      (db : Db) (email now : ℕ)
      → ((fail hash_otp account_key settings db email now).0.users ≡ db.users)
        × ((fail hash_otp account_key settings db email now).0.codes ≡ db.codes)
        × ((u : ℕ) → (fail hash_otp account_key settings db email now).1 ≢ verified u)
  unfolding fail
  fail-keeps db email now = elim (Bool-cases (ltb 0 settings.failure_limit)) [
    | inl on ↦
        (rw (on, fail) refl, rw (on, fail) refl, λ u. rw (on, fail) (refusal-not_verified _ u))
    | inr off ↦ (rw (off, fail) refl, rw (off, fail) refl, λ u. rw (off, fail) (λ h. cc))
  ]

  -- The unverified account of an address, whose code is gone or has at least `k` failed attempts,
  -- fewer than the limit.
  abbrev pub Guessed : ℕ → ℕ → ℕ → ℕ → Db → Type 0
  Guessed email user_id hash k db =
      ((user : User) × (get_user_by_email email db.users ≡ some (user_id, user))
        × (user.email_verified_at ≡ none))
      × ((lookup user_id db.codes ≡ none)
          ⊎ ((r : EmailVerificationCode) × (lookup user_id db.codes ≡ some r)
              × (r.code_hash ≡ hash)
              × (k ≤ r.failed_attempts)
              × (r.failed_attempts < settings.max_attempts)))

  fail-Guessed :
      (email user_id hash k now : ℕ) (db : Db)
      → Guessed email user_id hash k db
      → Guessed email user_id hash k (fail hash_otp account_key settings db email now).0
  fail-Guessed email user_id hash k now db h =
      let (users, codes, never) = fail-keeps db email now in rw (users, codes) h

  count_attempt-Guessed :
      (email user_id hash k : ℕ) (db : Db) (r : EmailVerificationCode)
      → Guessed email user_id hash k db
      → r.code_hash ≡ hash
      → k ≤ r.failed_attempts
      → Guessed email user_id hash
          (k + 1)
          (count_attempt hash_otp account_key settings db user_id r)
  unfolding count_attempt
  count_attempt-Guessed email user_id hash k db r (account, codes) same le =
      let more = record r { failed_attempts = r.failed_attempts + 1 } in
      elim (Bool-cases (leb settings.max_attempts (r.failed_attempts + 1))) [
        | inl last ↦
            rw (last, count_attempt)
              (account, inl (ground (arith, lookup-erase user_id user_id db.codes)))
        | inr early ↦
            rw (early, count_attempt)
              (
                account,
                inr (
                  more,
                  ground (arith, lookup-insert user_id user_id more db.codes),
                  same,
                  omega arith,
                  ground arith,
                ),
              )
      ]

  check_code-Guessed :
      (email user_id hash k code now : ℕ) (db : Db) (user : User) (r : EmailVerificationCode)
      → Guessed email user_id hash k db
      → r.code_hash ≡ hash
      → k ≤ r.failed_attempts
      → (hash_otp code user_id == hash) ≡ false
      → Guessed email user_id hash
          (k + 1)
          (check_code hash_otp account_key settings db email user_id user r code now).0
  unfolding check_code
  check_code-Guessed email user_id hash k code now db user r h same le wrong =
      elim (Bool-cases (leb r.expires_at now)) [
        | inl late ↦
            rw (late, check_code)
              (fail-Guessed email user_id hash (k + 1) now
                (delete_code hash_otp account_key settings db user_id)
                (h.0, inl (ground (arith, lookup-erase user_id user_id db.codes))))
        | inr live ↦
            let differs : (hash_otp code user_id == r.code_hash) ≡ false = rw same wrong in
            rw (live, check_code)
              (rw (differs, check_code)
                (fail-Guessed email user_id hash (k + 1) now
                  (count_attempt hash_otp account_key settings db user_id r)
                  (count_attempt-Guessed email user_id hash k db r h same le)))
      ]

  verify_email-Guessed :
      (email user_id hash k code now : ℕ) (db : Db)
      → Guessed email user_id hash k db
      → over_budget hash_otp account_key settings db email now ≡ none
      → (hash_otp code user_id == hash) ≡ false
      → Guessed email user_id hash
          (k + 1)
          (verify_email hash_otp account_key settings db email code now).0
  unfolding verify_email check_user
  verify_email-Guessed email user_id hash k code now db ((user, found, pending), codes) budget
        wrong =
      let unverified : is_some user.email_verified_at ≡ false = ground arith in
      elim codes [
        | inl gone ↦
            rw (budget, verify_email)
              (rw (found, check_user)
                (rw (unverified, check_user)
                  (rw (gone, check_user)
                    (fail-Guessed email user_id hash (k + 1) now db
                      ((user, found, pending), inl gone)))))
        | inr (r, at, same, le, lt) ↦
            rw (budget, verify_email)
              (rw (found, check_user)
                (rw (unverified, check_user)
                  (rw (at, check_user)
                    (check_code-Guessed email user_id hash k code now db user r
                      ((user, found, pending), inr (r, at, same, le, lt)) same le wrong))))
      ]

  -- Guesses one after another: a code and the time of each.
  unfoldable pub guess_all : Db → ℕ → List (ℕ × ℕ) → Db
  guess_all db email [] = db
  guess_all db email (g ∷ gs) =
      guess_all (verify_email hash_otp account_key settings db email g.0 g.1).0 email gs

  -- Each guess is looked at, as the address is not over its budget, and is wrong.
  abbrev pub AllWrong : ℕ → ℕ → ℕ → Db → List (ℕ × ℕ) → Type 0
  AllWrong email user_id hash db [] = Unit
  AllWrong email user_id hash db (g ∷ gs) =
      (over_budget hash_otp account_key settings db email g.1 ≡ none)
      × ((hash_otp g.0 user_id == hash) ≡ false)
      × AllWrong email user_id hash (verify_email hash_otp account_key settings db email g.0 g.1).0
          gs

  guess_all-Guessed :
      (email user_id hash k : ℕ) (db : Db) (gs : List (ℕ × ℕ))
      → Guessed email user_id hash k db
      → AllWrong email user_id hash db gs
      → Guessed email user_id hash (k + length gs) (guess_all db email gs)
  unfolding guess_all
  guess_all-Guessed email user_id hash k db [] h wrong =
      let same : k + 0 ≡ k = omega arith in
      subst (λ n. Guessed email user_id hash n db) (sym same) h
  guess_all-Guessed email user_id hash k db (g ∷ gs) h (budget, differs, wrong) =
      let db' = (verify_email hash_otp account_key settings db email g.0 g.1).0 in
      let same : k + 1 + length gs ≡ k + suc (length gs) = omega arith in
      subst (λ n. Guessed email user_id hash n (guess_all db' email gs)) same
        (guess_all-Guessed email user_id hash (k + 1) db' gs
          (verify_email-Guessed email user_id hash k g.0 g.1 db h budget differs) wrong)

  gone-refused :
      (db : Db) (email code now user_id : ℕ) (user : User) (u : ℕ)
      → get_user_by_email email db.users ≡ some (user_id, user)
      → user.email_verified_at ≡ none
      → lookup user_id db.codes ≡ none
      → (verify_email hash_otp account_key settings db email code now).1 ≢ verified u
  unfolding verify_email check_user
  gone-refused db email code now user_id user u found pending gone =
      let unverified : is_some user.email_verified_at ≡ false = ground arith in
      elim (Option-cases (over_budget hash_otp account_key settings db email now)) [
        | inr (retry, over) ↦ rw (over, verify_email) (λ h. cc)
        | inl budget ↦
            rw (budget, verify_email)
              (rw (found, check_user)
                (rw (unverified, check_user)
                  (rw (gone, check_user) ((fail-keeps db email now).2 u))))
      ]

  -- A code is good for so many guesses: once an unverified account's stored code has been guessed
  -- wrong `max_attempts` times, with no new code sent in between, no guess verifies the address any
  -- more, the right one included.
  pub guess_limit :
      (db : Db) (email user_id hash : ℕ) (gs : List (ℕ × ℕ)) (code now u : ℕ)
      → Guessed email user_id hash 0 db
      → AllWrong email user_id hash db gs
      → settings.max_attempts ≤ length gs
      → (verify_email hash_otp account_key settings (guess_all db email gs) email code now).1
        ≢ verified u
  guess_limit db email user_id hash gs code now u h wrong many =
      let ((user, found, pending), codes) = guess_all-Guessed email user_id hash 0 db gs h wrong in
      elim codes [
        | inl gone ↦
            gone-refused (guess_all db email gs) email code now user_id user u found pending gone
        | inr (r, at, same, le, lt) ↦ absurd (omega arith)
      ]
