-- ===== src/RateLimit/Counting.antt =====
-- What `enforce` counts: one more for its own key and window, and nothing for any other key.
use synapse_canvas.Base.{
  ℕ, ◌+◌, ◌-◌, ◌≡◌, sym, ap, subst, ◌∙◌, List, [], ◌∷◌, arith, Bool, true, false, not, ◌&&◌, Option,
  none, some, ltb, ◌==◌, if◌then◌else◌, keep, Bool-cases, inl, inr, min, All,
}
use synapse_canvas.RateLimit.{
  Bucket, Verdict, allowed, exceeded, is_older, upsert, count_at, judge, enforce, window_start_of,
  retry_after_of,
}

abbrev pub count_of : Option ℕ → ℕ
count_of none = 0
count_of (some n) = n

abbrev same_row : ℕ → ℕ → ℕ → ℕ → Bool
same_row k s key start = k == key && s == start

count_at-upsert :
    (k s key start : ℕ) (bs : List Bucket)
    → count_at k s (upsert key start bs) ≡ (
        if same_row k s key start
        then some (count_of (count_at key start bs) + 1)
        else count_at k s bs)
unfolding count_at upsert
count_at-upsert k s key start [] = ground arith
count_at-upsert k s key start (b ∷ bs) = ground (arith, count_at-upsert k s key start bs)

count_at-pruned :
    (k s key start : ℕ) (bs : List Bucket)
    → count_at k s (keep (λ b. not (is_older key start b)) bs)
      ≡ (if k == key && ltb s start then none else count_at k s bs)
unfolding count_at
count_at-pruned k s key start [] = ground arith
count_at-pruned k s key start (b ∷ bs) = ground (arith, count_at-pruned k s key start bs)

count_at-enforce :
    (now key limit window : ℕ) (bs : List Bucket) (k : ℕ)
    → count_at k (window_start_of now window) (enforce now key limit window bs).0 ≡ (
        if k == key
        then some (count_of (count_at k (window_start_of now window) bs) + 1)
        else count_at k (window_start_of now window) bs)
unfolding enforce
count_at-enforce now key limit window bs k =
    let start = window_start_of now window in
    ground (
      arith,
      count_at-pruned k start key start (upsert key start bs),
      count_at-upsert k start key start bs,
      ap (λ j. count_at j start bs) {x = k} {y = key},
    )

enforce-verdict :
    (now key limit window : ℕ) (bs : List Bucket)
    → (enforce now key limit window bs).1
      ≡ judge limit
          (retry_after_of now window)
          (some (count_of (count_at key (window_start_of now window) bs) + 1))
unfolding enforce
enforce-verdict now key limit window bs =
    let start = window_start_of now window in ground (arith, count_at-upsert key start key start bs)

-- A row of calls, each at its own time and for its own key; the verdicts come back in order.
unfoldable pub enforce_all : ℕ → ℕ → List (ℕ × ℕ) → List Bucket → List Bucket × List (ℕ × Verdict)
enforce_all limit window [] bs = (bs, [])
enforce_all limit window ((now, key) ∷ calls) bs =
    let (bs', v) = enforce now key limit window bs in
    let (bs'', vs) = enforce_all limit window calls bs' in (bs'', (key, v) ∷ vs)

abbrev pub is_allowed : Verdict → Bool
is_allowed (allowed n) = true
is_allowed (exceeded retry) = false

abbrev pub allowed_for : ℕ → List (ℕ × Verdict) → ℕ
allowed_for key [] = 0
allowed_for key (v ∷ vs) = (if v.0 == key && is_allowed v.1 then 1 else 0) + allowed_for key vs

abbrev pub calls_for : ℕ → List (ℕ × ℕ) → ℕ
calls_for key [] = 0
calls_for key (c ∷ calls) = (if c.1 == key then 1 else 0) + calls_for key calls

abbrev pub InWindow : ℕ → ℕ → List (ℕ × ℕ) → Type 0
InWindow window start = All (λ c. window_start_of c.0 window ≡ start)

allowed_step :
    (limit window start key : ℕ) (calls : List (ℕ × ℕ)) (bs : List Bucket)
    → InWindow window start calls
    → allowed_for key (enforce_all limit window calls bs).1
      ≡ min (limit - count_of (count_at key start bs)) (calls_for key calls)
unfolding enforce_all
allowed_step limit window start key [] bs h = omega arith
allowed_step limit window start key ((now, k) ∷ calls) bs (e, h) =
    let bs' = (enforce now k limit window bs).0 in
    let counted =
      subst
        (λ s.
          count_at key s bs'
          ≡ (if key == k then some (count_of (count_at key s bs) + 1) else count_at key s bs))
        e (count_at-enforce now k limit window bs key) in
    let judged =
      subst
        (λ s.
          (enforce now k limit window bs).1
          ≡ judge limit (retry_after_of now window) (some (count_of (count_at k s bs) + 1)))
        e (enforce-verdict now k limit window bs) in
    let rest = allowed_step limit window start key calls bs' h in
    elim (Bool-cases (k == key)) [
      | inl own ↦
          let at : key ≡ k = ground arith in
          let judged' =
            subst
              (λ j.
                (enforce now k limit window bs).1
                ≡ judge limit (retry_after_of now window)
                    (some (count_of (count_at j start bs) + 1)))
              (sym at) judged in
          ground arith
      | inr other ↦ ground arith
    ]

-- Calls of many clients, interleaved at any times inside one window: of those for one key exactly
-- the first `limit` are let through.
pub enforce_all-limit :
    (limit window start key : ℕ) (calls : List (ℕ × ℕ)) (bs : List Bucket)
    → InWindow window start calls
    → count_at key start bs ≡ none
    → allowed_for key (enforce_all limit window calls bs).1 ≡ min limit (calls_for key calls)
enforce_all-limit limit window start key calls bs h fresh =
    allowed_step limit window start key calls bs h
    ∙ ap (λ n. min (limit - count_of n) (calls_for key calls)) fresh
    ∙ omega arith
