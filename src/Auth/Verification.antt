-- ===== src/Auth/Verification.antt =====
-- api/services/auth_service.py, the emailed verification codes, with api/models/email_verification.py
-- and user.py. `hash_otp`, an HMAC, is a parameter, as is the key that an address has in the
-- rate-limit table; an address stands as the number of its normalised form.
pub mod Guesses
mod Tests
use synapse_canvas.Base.{
  ℕ, ◌+◌, ◌-◌, List, [], ◌∷◌, Bool, true, false, not, ◌||◌, Option, none, some, ltb, leb, ◌==◌,
  if◌then◌else◌, is_some, keep, length,
}
use synapse_canvas.Base.Dict.{Dict, lookup, insert, erase}
use synapse_canvas.RateLimit.{
  Bucket, Verdict, allowed, exceeded, enforce, ensure_under_limit, reset,
}

-- The part of an account that verification reads and writes.
pub record User : Type 0 where
  pub email : ℕ
  pub email_verified_at : Option ℕ

-- `EmailVerificationCode`, under its user's id, which is unique.
pub record EmailVerificationCode : Type 0 where
  pub code_hash : ℕ
  pub expires_at : ℕ
  pub failed_attempts : ℕ

pub record Db : Type 0 where
  pub users : Dict User
  pub codes : Dict EmailVerificationCode
  pub buckets : List Bucket

pub record Settings : Type 0 where
  pub code_ttl : ℕ
  pub max_attempts : ℕ
  pub failure_limit : ℕ
  pub failure_window : ℕ

pub data Result : Type 0 where
  verified : ℕ → Result
  invalid_code : Result
  rate_limited : ℕ → Result

unfoldable pub get_user_by_email : ℕ → Dict User → Option (ℕ × User)
get_user_by_email email [] = none
get_user_by_email email (u ∷ us) = if u.1.email == email then some u else get_user_by_email email us

module _ (hash_otp : ℕ → ℕ → ℕ) (account_key : ℕ → ℕ) (settings : Settings) where
  -- The upsert retires the code before and resets its attempts.
  unfoldable pub issue_verification_code : Db → ℕ → ℕ → ℕ → Db
  issue_verification_code db user_id code now = record db {
    codes =
        insert user_id
          (record {
            code_hash = hash_otp code user_id;
            expires_at = now + settings.code_ttl;
            failed_attempts = 0;
          })
          db.codes;
  }

  abbrev pub refusal : Verdict → Result
  refusal (allowed n) = invalid_code
  refusal (exceeded retry) = rate_limited retry

  -- `_fail`: what was changed is committed, and the guess is counted against the address.
  unfoldable pub fail : Db → ℕ → ℕ → Db × Result
  fail db email now =
      if ltb 0 settings.failure_limit
      then (let out =
            enforce now (account_key email) settings.failure_limit settings.failure_window
              db.buckets in
          (record db { buckets = out.0 }, refusal out.1))
      else (db, invalid_code)

  abbrev pub delete_code : Db → ℕ → Db
  delete_code db user_id = record db { codes = erase user_id db.codes }

  -- A wrong guess: one more attempt, and the last one takes the code away.
  pub count_attempt : Db → ℕ → EmailVerificationCode → Db
  count_attempt db user_id r =
      if leb settings.max_attempts (r.failed_attempts + 1)
      then delete_code db user_id
      else record db {
        codes = insert user_id (record r { failed_attempts = r.failed_attempts + 1 }) db.codes;
      }

  abbrev pub forgive : Db → ℕ → Db
  forgive db email =
      if ltb 0 settings.failure_limit
      then record db { buckets = reset (account_key email) db.buckets }
      else db

  -- A row that is there, for a user who is not verified.
  unfoldable pub check_code : Db → ℕ → ℕ → User → EmailVerificationCode → ℕ → ℕ → Db × Result
  unfolding fail count_attempt
  check_code db email user_id user r code now =
      if leb r.expires_at now
      then fail (delete_code db user_id) email now
      else if hash_otp code user_id == r.code_hash
      then (
        forgive
            (record (delete_code db user_id) {
              users = insert user_id (record user { email_verified_at = some now }) db.users;
            })
            email,
        verified user_id,
      )
      else fail (count_attempt db user_id r) email now

  unfoldable pub check_user : Db → ℕ → Option (ℕ × User) → ℕ → ℕ → Db × Result
  unfolding fail check_code
  check_user db email none code now = fail db email now
  check_user db email (some (user_id, user)) code now =
      if is_some user.email_verified_at then fail db email now else elim (lookup user_id db.codes) [
        | none ↦ fail db email now
        | some r ↦ check_code db email user_id user r code now
      ]

  -- Whether the address is over its budget of wrong guesses already.
  unfoldable pub over_budget : Db → ℕ → ℕ → Option ℕ
  over_budget db email now =
      if ltb 0 settings.failure_limit
      then ensure_under_limit now (account_key email) settings.failure_limit settings.failure_window
          db.buckets
      else none

  unfoldable pub verify_email : Db → ℕ → ℕ → ℕ → Db × Result
  unfolding over_budget check_user get_user_by_email
  verify_email db email code now = elim (over_budget db email now) [
    | some retry ↦ (db, rate_limited retry)
    | none ↦ check_user db email (get_user_by_email email db.users) code now
  ]

unfoldable pub purge_expired_verification_codes : Db → ℕ → Db × ℕ
purge_expired_verification_codes db now =
    let kept = keep (λ c. not (leb c.1.expires_at now)) db.codes in
    (record db { codes = kept }, length db.codes - length kept)
