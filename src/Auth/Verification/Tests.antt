-- ===== src/Auth/Verification/Tests.antt =====
-- Two wrong guesses at a code that allows two.
use synapse_canvas.Base.{ℕ, ◌≡◌, ◌≢◌, refl, inr, List, [], ◌∷◌, none, arith, ◌+◌, ◌*◌}
use synapse_canvas.Auth.Verification.{
  Db, Settings, verified, issue_verification_code, verify_email, over_budget, get_user_by_email,
  check_user, check_code,
}
use synapse_canvas.Auth.Verification.Guesses.{Guessed, guess_all, guess_limit}

-- Stands for the HMAC.
abbrev tagged : ℕ → ℕ → ℕ
tagged code subject = code * 1000 + subject

abbrev own_key : ℕ → ℕ
own_key email = email

abbrev two_guesses : Settings
two_guesses = record { code_ttl = 600; max_attempts = 2; failure_limit = 0; failure_window = 60 }

abbrev registered : Db
registered = record {
  users = (3, record { email = 70; email_verified_at = none }) ∷ [];
  codes = [];
  buckets = [];
}

abbrev sent_code : Db
sent_code = issue_verification_code tagged own_key two_guesses registered 3 123456 1000

abbrev wrong_guesses : List (ℕ × ℕ)
wrong_guesses = (111111, 1001) ∷ (222222, 1002) ∷ []

sent_code-Guessed : Guessed tagged own_key two_guesses 70 3 (tagged 123456 3) 0 sent_code
unfolding issue_verification_code get_user_by_email
sent_code-Guessed = (
  (record { email = 70; email_verified_at = none }, refl, refl),
  inr (
    record { code_hash = tagged 123456 3; expires_at = 1600; failed_attempts = 0 },
    refl,
    refl,
    omega arith,
    omega arith,
  ),
)

right_guess-verified :
    (verify_email tagged own_key two_guesses sent_code 70 123456 1003).1 ≡ verified 3
unfolding issue_verification_code verify_email over_budget get_user_by_email check_user check_code
right_guess-verified = refl

guess_limit_example :
    (verify_email tagged own_key two_guesses
      (guess_all tagged own_key two_guesses sent_code 70 wrong_guesses)
      70
      123456
      1003).1
    ≢ verified 3
unfolding over_budget
guess_limit_example =
    guess_limit tagged own_key two_guesses sent_code 70 3 (tagged 123456 3) wrong_guesses 123456
      1003 3 sent_code-Guessed (refl, refl, (refl, refl, tt)) (omega arith)
