-- ===== src/RateLimit/Windows.antt =====
-- The windows: aligned, holding the present, and over when `retry_after` says so.
use synapse_canvas.Base.{ℕ, ◌+◌, ◌%◌, ◌≤◌, ◌<◌, ◌≡◌, sym, ap, ◌∙◌, arith}
use native.Mathlib.Nat.{mod-lt, mod-add-mod, div-add-mod, mod_self}
use synapse_canvas.RateLimit.{window_start_of, retry_after_of}

mod-le : (n m : ℕ) → n % m ≤ n
mod-le n m = omega (arith, div-add-mod n m)

next_start : (now window wait : ℕ) → now % window + wait ≡ window → (now + wait) % window ≡ 0
next_start now window wait e =
    sym (mod-add-mod now window wait) ∙ ap (λ k. k % window) e ∙ mod_self window

next_window :
    (now window : ℕ)
    → 0 < window
    → window_start_of (now + retry_after_of now window) window ≡ window_start_of now window + window
unfolding window_start_of retry_after_of
next_window now window h =
    let wait = retry_after_of now window in
    let full : now % window + wait ≡ window = omega (arith, mod-lt now h, mod-le now window) in
    rw (next_start now window wait full) (omega (arith, mod-lt now h, mod-le now window))

-- The window that a time lies in starts at or before it and ends after it; the wait that a refusal
-- names is at least a second and at most a window, and waiting just that long is enough to be in
-- the next window.
pub window_bounds_lem :
    (now window : ℕ)
    → 0 < window
    → (window_start_of now window ≤ now)
      × (now < window_start_of now window + window)
      × (1 ≤ retry_after_of now window)
      × (retry_after_of now window ≤ window)
      × (window_start_of (now + retry_after_of now window) window
          ≡ window_start_of now window + window)
unfolding window_start_of retry_after_of
window_bounds_lem now window h =
    let m = mod-lt now h in
    let le = mod-le now window in
    (omega arith, omega arith, omega arith, omega arith, next_window now window h)
