-- ===== src/Queries/Rows.antt =====
-- What each write of api/services/ai_queries.py and ai_usage.py does to the rows.
use synapse_canvas.Base.{
  ℕ, ◌+◌, ◌≤◌, ◌<◌, ◌≡◌, refl, ◌⊎◌, inl, inr, [], ◌∷◌, arith, Bool, true, false, Option, none, some,
  if◌then◌else◌, Bool-cases, Option-cases,
}
use synapse_canvas.Base.Dict.{Dict, lookup, insert}
use synapse_canvas.Queries.{
  AiQuery, Settings, Outcome, Limit, within_limits, concurrency_limit, daily_limit, is_streaming,
  streaming_queries, tokens_used, day_start, expire, is_abandoned, expire_abandoned, judge_usage,
  admit_query, ended_as, finish, is_streaming_status,
}

abbrev pub expired_if : Bool → ℕ → AiQuery → AiQuery
expired_if b now q = if b then expire now q else q

abbrev pub expired_row : Settings → ℕ → ℕ → Option AiQuery → Option AiQuery
expired_row settings w now none = none
expired_row settings w now (some q) = some (expired_if (is_abandoned settings w now q) now q)

pub lookup-expire_abandoned :
    (id : ℕ) (settings : Settings) (w now : ℕ) (qs : Dict AiQuery)
    → lookup id (expire_abandoned qs settings w now) ≡ expired_row settings w now (lookup id qs)
unfolding expire_abandoned
lookup-expire_abandoned id settings w now [] = refl
lookup-expire_abandoned id settings w now (q ∷ qs) =
    ground (arith, lookup-expire_abandoned id settings w now qs)

Limit-cases :
    (e : Limit)
    → (e ≡ within_limits) ⊎ ((n : ℕ) × ((e ≡ concurrency_limit n) ⊎ (e ≡ daily_limit n)))
Limit-cases within_limits = inl refl
Limit-cases (concurrency_limit n) = inr (n, inl refl)
Limit-cases (daily_limit n) = inr (n, inr refl)

-- A query is admitted beside the rows that expiry leaves, or refused with the rows as they were.
pub admit_query-Ends :
    (qs : Dict AiQuery) (settings : Settings) (now id : ℕ) (q : AiQuery) (estimated : ℕ)
    → let kept = expire_abandoned qs settings q.workspace_id now in
      let out = admit_query qs settings now id q estimated in
      ((judge_usage kept settings q.workspace_id now estimated ≡ within_limits)
        × (out ≡ (insert id q kept, within_limits)))
      ⊎ ((n : ℕ) × ((out ≡ (qs, concurrency_limit n)) ⊎ (out ≡ (qs, daily_limit n))))
unfolding admit_query
admit_query-Ends qs settings now id q estimated =
    let kept = expire_abandoned qs settings q.workspace_id now in
    elim (Limit-cases (judge_usage kept settings q.workspace_id now estimated)) [
      | inl h ↦ inl (h, rw (h, admit_query) refl)
      | inr (n, inl h) ↦ inr (n, inl (rw (h, admit_query) refl))
      | inr (n, inr h) ↦ inr (n, inr (rw (h, admit_query) refl))
    ]

pub judge_usage-within :
    (qs : Dict AiQuery) (settings : Settings) (w now estimated : ℕ)
    → judge_usage qs settings w now estimated ≡ within_limits
    → (0 < settings.max_concurrent_queries
        → streaming_queries qs w < settings.max_concurrent_queries)
      × (0 < settings.daily_token_limit
          → tokens_used qs w (day_start now) + estimated ≤ settings.daily_token_limit)
unfolding judge_usage
judge_usage-within qs settings w now estimated h = ground arith

-- What writes the table: a query that is created, one that is answered without the model, and the
-- end of a generation. New rows have fresh ids; no generation ends as still streaming.
pub data Event (settings : Settings) : Dict AiQuery → Dict AiQuery → Type 0 where
  admits :
      (qs : Dict AiQuery) (now id : ℕ) (q : AiQuery) (estimated : ℕ)
      → lookup id qs ≡ none
      → Event settings qs (admit_query qs settings now id q estimated).0
  answers :
      (qs : Dict AiQuery) (id : ℕ) (q : AiQuery)
      → lookup id qs ≡ none
      → is_streaming q ≡ false
      → Event settings qs (insert id q qs)
  finishes :
      (qs : Dict AiQuery) (id : ℕ) (outcome : Outcome) (now : ℕ)
      → is_streaming_status outcome.status ≡ false
      → Event settings qs (finish qs id outcome now).0

pub data Reach (settings : Settings) (start : Dict AiQuery) : Dict AiQuery → Type 0 where
  begins : Reach settings start start
  continues :
      {qs qs' : Dict AiQuery}
      → Reach settings start qs
      → Event settings qs qs'
      → Reach settings start qs'

-- A row is ended, or left alone.
pub finish-Ends :
    (qs : Dict AiQuery) (id : ℕ) (outcome : Outcome) (now : ℕ)
    → (finish qs id outcome now ≡ (qs, false))
      ⊎ ((q : AiQuery) × (lookup id qs ≡ some q)
          × (is_streaming q ≡ true)
          × (finish qs id outcome now ≡ (insert id (ended_as outcome now q) qs, true)))
unfolding finish
finish-Ends qs id outcome now = elim (Option-cases (lookup id qs)) [
  | inl e ↦ inl (rw (e, finish) refl)
  | inr (q, e) ↦ elim (Bool-cases (is_streaming q)) [
    | inl s ↦ inr (q, e, s, rw (e, finish) (rw s refl))
    | inr s ↦ inl (rw (e, finish) (rw s refl))
  ]
]
