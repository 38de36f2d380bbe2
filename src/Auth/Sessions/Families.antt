-- ===== src/Auth/Sessions/Families.antt =====
-- A family is the row of tokens that one sign-in led to. The live ones of a family, counted.
use synapse_canvas.Base.{
  ℕ, ◌+◌, ◌≤◌, ◌≡◌, refl, [], ◌∷◌, arith, Bool, ◌&&◌, Option, none, some, ◌==◌, if◌then◌else◌, keep,
}
use synapse_canvas.Base.Dict.{Dict, lookup, insert}
use synapse_canvas.Auth.Sessions.{RefreshToken, is_live, revoke_where}

abbrev pub live_in : ℕ → RefreshToken → ℕ
live_in f t = if t.family_id == f && is_live t then 1 else 0

abbrev pub live_at : ℕ → Option RefreshToken → ℕ
live_at f none = 0
live_at f (some t) = live_in f t

-- The live tokens of a family.
abbrev pub live_count : ℕ → Dict RefreshToken → ℕ
live_count f [] = 0
live_count f (e ∷ d) = live_in f e.1 + live_count f d

-- Writing a row adds what the new one counts and takes off what the old one did.
pub live_count-insert :
    (f k : ℕ) (t : RefreshToken) (d : Dict RefreshToken)
    → live_count f (insert k t d) + live_at f (lookup k d) ≡ live_count f d + live_in f t
live_count-insert f k t [] = omega arith
live_count-insert f k t (e ∷ d) = ground (arith, live_count-insert f k t d)

pub live_count-revoke_where :
    (test : RefreshToken → Bool) (now f : ℕ) (d : Dict RefreshToken)
    → live_count f (revoke_where test now d) ≤ live_count f d
unfolding revoke_where
live_count-revoke_where test now f [] = omega arith
live_count-revoke_where test now f (e ∷ d) = ground (arith, live_count-revoke_where test now f d)

pub live_count-revoke_family :
    (now f : ℕ) (d : Dict RefreshToken)
    → live_count f (revoke_where (λ t. t.family_id == f) now d) ≡ 0
unfolding revoke_where
live_count-revoke_family now f [] = refl
live_count-revoke_family now f (e ∷ d) = ground (arith, live_count-revoke_family now f d)

pub live_count-keep :
    (p : ℕ × RefreshToken → Bool) (f : ℕ) (d : Dict RefreshToken)
    → live_count f (keep p d) ≤ live_count f d
live_count-keep p f [] = omega arith
live_count-keep p f (e ∷ d) = ground (arith, live_count-keep p f d)

-- A live row is one of its family's.
pub live_count-lookup :
    (k f : ℕ) (t : RefreshToken) (d : Dict RefreshToken)
    → lookup k d ≡ some t
    → live_in f t ≤ live_count f d
live_count-lookup k f t [] h = cc
live_count-lookup k f t (e ∷ d) h = ground (arith, live_count-lookup k f t d)
