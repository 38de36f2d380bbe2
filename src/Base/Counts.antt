-- ===== src/Base/Counts.antt =====
-- Laws of counting, searching and indexing in a list.
use Prim.Native.Nat.{ℕ, zero, suc, ◌+◌, ◌≤◌, ◌<◌}
use mathlib.Core.Path.{◌≡◌, refl}
use mathlib.Core.Bool.{Bool, false}
use mathlib.Core.List.{List, [], ◌∷◌, ◌++◌}
use mathlib.Core.Option.{Option, none, some}
use native.Mathlib.Omega.{arith}
use synapse_canvas.Base.Lists.{length, get_elem?, keep, count_if, find, any}

-- The first of two answers that is there.
abbrev pub first_of {ℓ} : {A : Type ℓ} → Option A → Option A → Option A
first_of none second = second
first_of (some a) second = some a

module _ {A : Type 0} (p : A → Bool) where
  pub count_if-append : (xs ys : List A) → count_if p (xs ++ ys) ≡ count_if p xs + count_if p ys
  count_if-append [] ys = omega arith
  count_if-append (x ∷ xs) ys = omega (arith, count_if-append xs ys)

  pub count_if-keep : (q : A → Bool) (xs : List A) → count_if p (keep q xs) ≤ count_if p xs
  count_if-keep q [] = omega arith
  count_if-keep q (x ∷ xs) = ground (arith, count_if-keep q xs)

  pub any-count_if : (xs : List A) → any p xs ≡ false → count_if p xs ≡ 0
  any-count_if [] h = refl
  any-count_if (x ∷ xs) h = ground (arith, any-count_if xs)

  pub any-count_if_zero : (xs : List A) → count_if p xs ≡ 0 → any p xs ≡ false
  any-count_if_zero [] h = refl
  any-count_if_zero (x ∷ xs) h = ground (arith, any-count_if_zero xs)

  pub find-append : (xs ys : List A) → find p (xs ++ ys) ≡ first_of (find p xs) (find p ys)
  find-append [] ys = refl
  find-append (x ∷ xs) ys = ground (arith, find-append xs ys)

  pub find-none : (xs : List A) → count_if p xs ≡ 0 → find p xs ≡ none
  find-none [] h = refl
  find-none (x ∷ xs) h = ground (arith, find-none xs)

  pub find-count_if : (xs : List A) → find p xs ≡ none → count_if p xs ≡ 0
  find-count_if [] h = refl
  find-count_if (x ∷ xs) h = ground (arith, find-count_if xs)

pub get_elem?-some :
    {A : Type 0} (xs : List A) (i : ℕ) → i < length xs → (x : A) × (get_elem? xs i ≡ some x)
get_elem?-some [] i h = absurd (omega arith)
get_elem?-some (x ∷ xs) zero h = (x, refl)
get_elem?-some (x ∷ xs) (suc i) h = get_elem?-some xs i (omega arith)
