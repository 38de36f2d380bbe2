-- ===== src/Base/Dict.antt =====
-- A table with a primary key, a Redis hash or a Python dict: rows under numbers, in the order of
-- their insertion.
use Prim.Native.Nat.{ℕ}
use mathlib.Core.Path.{◌≡◌}
use mathlib.Core.List.{List, [], ◌∷◌}
use mathlib.Core.Option.{Option, none, some}
use native.Mathlib.Omega.{arith}
use synapse_canvas.Base.Tests.{◌==◌, if◌then◌else◌}

abbrev pub Dict {ℓ} : Type ℓ → Type ℓ
Dict Row = List (ℕ × Row)

-- The row under a key.
abbrev pub lookup {ℓ} : {Row : Type ℓ} → ℕ → Dict Row → Option Row
lookup key [] = none
lookup key (first ∷ others) = if first.0 == key then some first.1 else lookup key others

-- Every row but that under the key.
abbrev pub erase {ℓ} : {Row : Type ℓ} → ℕ → Dict Row → Dict Row
erase key [] = []
erase key (first ∷ others) = if first.0 == key then erase key others else first ∷ erase key others

pub lookup-erase {ℓ} :
    {Row : Type ℓ} (wanted key : ℕ) (table : Dict Row)
    → lookup wanted (erase key table) ≡ (if wanted == key then none else lookup wanted table)
lookup-erase wanted key [] = ground arith
lookup-erase wanted key (first ∷ others) = ground (arith, lookup-erase wanted key others)

-- The row under the key replaced, or a new one at the end.
abbrev pub insert {ℓ} : {Row : Type ℓ} → ℕ → Row → Dict Row → Dict Row
insert key row [] = (key, row) ∷ []
insert key row (first ∷ others) =
    if first.0 == key then (key, row) ∷ others else first ∷ insert key row others

pub lookup-insert {ℓ} :
    {Row : Type ℓ} (wanted key : ℕ) (row : Row) (table : Dict Row)
    → lookup wanted (insert key row table)
      ≡ (if wanted == key then some row else lookup wanted table)
lookup-insert wanted key row [] = ground arith
lookup-insert wanted key row (first ∷ others) = ground (arith, lookup-insert wanted key row others)
