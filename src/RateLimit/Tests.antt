-- ===== src/RateLimit/Tests.antt =====
-- The throttle at one limit of 2 and windows of 60 seconds.
use synapse_canvas.Base.{ℕ, ◌≡◌, refl, List, [], ◌∷◌}
use synapse_canvas.RateLimit.{window_start_of, count_at}
use synapse_canvas.RateLimit.Counting.{enforce_all, enforce_all-limit, allowed_for}

abbrev mixed_calls : List (ℕ × ℕ)
mixed_calls = (121, 7) ∷ (122, 8) ∷ (125, 7) ∷ (130, 7) ∷ (140, 7) ∷ []

enforce_all-limit_example : allowed_for 7 (enforce_all 2 60 mixed_calls []).1 ≡ 2
unfolding window_start_of count_at
enforce_all-limit_example =
    enforce_all-limit 2 60 120 7 mixed_calls [] (refl, (refl, (refl, (refl, (refl, tt))))) refl
