-- ===== src/Queries/Budget.antt =====
-- api/services/ai_usage.py: the limits of a workspace under any order of its operations.
use synapse_canvas.Base.{
  ℕ, ◌+◌, ◌-◌, ◌≤◌, ◌<◌, ◌≡◌, refl, ltb, leb, ap, ◌⊎◌, inl, inr, [], ◌∷◌, arith, ◌&&◌, Option, none,
  some, ◌==◌, if◌then◌else◌, Bool-cases,
}
use synapse_canvas.Base.Dict.{Dict, lookup, insert, lookup-insert}
use synapse_canvas.Queries.{
  AiQuery, Settings, within_limits, concurrency_limit, daily_limit, judge_usage, is_streaming,
  streaming_queries, tokens_used, day_start, expire_abandoned, admit_query, ended_as,
}
use synapse_canvas.Queries.Rows.{
  admit_query-Ends, judge_usage-within, Event, Reach, finish-Ends, admits, answers, finishes,
  begins, continues,
}

abbrev pub runs_in : ℕ → AiQuery → ℕ
runs_in workspace q = if q.workspace_id == workspace && is_streaming q then 1 else 0

abbrev pub runs_at : ℕ → Option AiQuery → ℕ
runs_at workspace none = 0
runs_at workspace (some q) = runs_in workspace q

streaming_queries-insert :
    (workspace id : ℕ) (q : AiQuery) (qs : Dict AiQuery)
    → streaming_queries (insert id q qs) workspace + runs_at workspace (lookup id qs)
      ≡ streaming_queries qs workspace + runs_in workspace q
unfolding streaming_queries
streaming_queries-insert workspace id q [] = omega arith
streaming_queries-insert workspace id q (first ∷ others) =
    ground (arith, streaming_queries-insert workspace id q others)

streaming_queries-expire :
    (workspace w : ℕ) (settings : Settings) (now : ℕ) (qs : Dict AiQuery)
    → streaming_queries (expire_abandoned qs settings w now) workspace
      ≤ streaming_queries qs workspace
unfolding streaming_queries expire_abandoned
streaming_queries-expire workspace w settings now [] = omega arith
streaming_queries-expire workspace w settings now (q ∷ qs) =
    ground (arith, streaming_queries-expire workspace w settings now qs)

Event-limit :
    {settings : Settings} {qs qs' : Dict AiQuery} (w : ℕ)
    → 0 < settings.max_concurrent_queries
    → Event settings qs qs'
    → streaming_queries qs w ≤ settings.max_concurrent_queries
    → streaming_queries qs' w ≤ settings.max_concurrent_queries
Event-limit {settings} w on (admits qs now id q estimated fresh) h =
    let kept = expire_abandoned qs settings q.workspace_id now in
    elim (admit_query-Ends qs settings now id q estimated) [
      | inl (ok, out) ↦ rw out (elim (Bool-cases (q.workspace_id == w)) [
        | inl own ↦
            let same : q.workspace_id ≡ w = ground arith in
            ground (
              arith,
              ap (streaming_queries kept) same,
              judge_usage-within kept settings q.workspace_id now estimated ok,
              streaming_queries-insert w id q kept,
            )
        | inr other ↦ ground (
          arith,
          streaming_queries-expire w q.workspace_id settings now qs,
          streaming_queries-insert w id q kept,
        )
      ])
      | inr (n, inl out) ↦ rw out h
      | inr (n, inr out) ↦ rw out h
    ]
Event-limit w on (answers qs id q fresh ended) h =
    ground (arith, streaming_queries-insert w id q qs)
Event-limit w on (finishes qs id outcome now ended) h = elim (finish-Ends qs id outcome now) [
  | inl out ↦ rw out h
  | inr (q, at, runs, out) ↦
      rw out (ground (arith, streaming_queries-insert w id (ended_as outcome now q) qs))
]

-- With a limit on concurrent generations in force, and a table within it, no sequence of
-- creations, answers, expiries and ends of generations, under fresh ids, takes a workspace over
-- the limit.
pub Reach-concurrency :
    {settings : Settings} {start qs : Dict AiQuery} (w : ℕ)
    → 0 < settings.max_concurrent_queries
    → streaming_queries start w ≤ settings.max_concurrent_queries
    → Reach settings start qs
    → streaming_queries qs w ≤ settings.max_concurrent_queries
Reach-concurrency w on h begins = h
Reach-concurrency w on h (continues r e) = Event-limit w on e (Reach-concurrency w on h r)

-- How `enforce` judges: within the limits, over the one on running generations, or over the day's.
judge_usage-cases :
    (qs : Dict AiQuery) (settings : Settings) (w now estimated : ℕ)
    → (judge_usage qs settings w now estimated ≡ within_limits)
      ⊎ ((judge_usage qs settings w now estimated ≡ concurrency_limit (streaming_queries qs w))
          × (0 < settings.max_concurrent_queries)
          × (settings.max_concurrent_queries ≤ streaming_queries qs w))
      ⊎ ((judge_usage qs settings w now estimated ≡ daily_limit (day_start now + 86400 - now + 1))
          × (0 < settings.daily_token_limit)
          × (settings.daily_token_limit < tokens_used qs w (day_start now) + estimated))
unfolding judge_usage
judge_usage-cases qs settings w now estimated =
    let many =
      ltb 0 settings.max_concurrent_queries
      && leb settings.max_concurrent_queries (streaming_queries qs w) in
    let much =
      ltb 0 settings.daily_token_limit
      && ltb settings.daily_token_limit (tokens_used qs w (day_start now) + estimated) in
    elim (Bool-cases many) [
      | inl e ↦ inr (inl (rw e refl, ground arith, ground arith))
      | inr e ↦ elim (Bool-cases much) [
        | inl f ↦ inr (inr (rw e (rw f refl), ground arith, ground arith))
        | inr f ↦ inl (rw e (rw f refl))
      ]
    ]

-- A query that is admitted is stored as it was given, and fits: with a limit on concurrent
-- generations in force, fewer than that are running in the workspace; with a daily limit in force,
-- the tokens that it has used since the day began and those estimated for the prompt are within it
-- together. A refusal leaves the table as it was, and names a limit in force that is reached: the
-- running generations, with their number, or the day's tokens, with the seconds until its end.
pub admit_query-daily :
    (qs : Dict AiQuery) (settings : Settings) (now id : ℕ) (q : AiQuery) (estimated : ℕ)
    → let out = admit_query qs settings now id q estimated in
      let kept = expire_abandoned qs settings q.workspace_id now in
      let running = streaming_queries kept q.workspace_id in
      let used = tokens_used kept q.workspace_id (day_start now) in
      ((out.1 ≡ within_limits)
        × (lookup id out.0 ≡ some q)
        × (0 < settings.max_concurrent_queries → running < settings.max_concurrent_queries)
        × (0 < settings.daily_token_limit → used + estimated ≤ settings.daily_token_limit))
      ⊎ ((out ≡ (qs, concurrency_limit running))
          × (0 < settings.max_concurrent_queries)
          × (settings.max_concurrent_queries ≤ running))
      ⊎ ((out ≡ (qs, daily_limit (day_start now + 86400 - now + 1)))
          × (0 < settings.daily_token_limit)
          × (settings.daily_token_limit < used + estimated))
unfolding admit_query
admit_query-daily qs settings now id q estimated =
    let kept = expire_abandoned qs settings q.workspace_id now in
    elim (judge_usage-cases kept settings q.workspace_id now estimated) [
      | inl ok ↦
          let (free, fits) = judge_usage-within kept settings q.workspace_id now estimated ok in
          inl (
            rw (ok, admit_query) refl,
            rw (ok, admit_query) (ground (arith, lookup-insert id id q kept)),
            free,
            fits,
          )
      | inr (inl (over, on, many)) ↦ inr (inl (rw (over, admit_query) refl, on, many))
      | inr (inr (over, on, much)) ↦ inr (inr (rw (over, admit_query) refl, on, much))
    ]
