-- ===== src/Retrieval/Requests.antt =====
-- api/services/embedding_usage.py with api/models/embedding_request.py: requests to the embedding
-- provider, counted per workspace and day before they are sent, and retried.
use synapse_canvas.Base.{
  ℕ, zero, suc, ◌+◌, ◌≤◌, ◌<◌, ◌≡◌, refl, ap, Bool, true, false, not, ◌&&◌, ◌||◌, Option, List, [],
  ◌∷◌, ◌++◌, ltb, leb, ◌==◌, if◌then◌else◌, length, count_if, arith, Bool-cases, ◌⊎◌, inl, inr,
  length-append,
}
use synapse_canvas.Base.Counts.{count_if-append}
use synapse_canvas.ProseMirror.Utf16.{Text}
use synapse_canvas.Queries.{day_start}

pub data Purpose : Type 0 where
  document query : Purpose

-- A row of `embedding_requests`.
pub record EmbeddingRequest : Type 0 where
  pub workspace_id : ℕ
  pub source_id : Option ℕ
  pub purpose : Purpose
  pub model : ℕ
  pub texts : ℕ
  pub tokens : ℕ
  pub created_at : ℕ

pub record Provider : Type 0 where
  pub model : ℕ
  pub metered : Bool
  pub count_tokens : Text → ℕ

pub record Limits : Type 0 where
  pub daily_request_limit : ℕ
  pub max_retries : ℕ

-- A call of `embed`: what is asked for.
pub record Call : Type 0 where
  pub workspace_id : ℕ
  pub source_id : Option ℕ
  pub purpose : Purpose
  pub texts : List Text

-- What the provider makes of one request: it answers, or it raises, as transient and as a daily
-- quota or not.
pub data Reply : Type 0 where
  answers : Reply
  raises : Bool → Bool → Reply

pub data Result : Type 0 where
  embedded : Result
  limit_reached : Result
  raised : Bool → Bool → Result
  unreachable : Result

abbrev pub is_today : ℕ → ℕ → EmbeddingRequest → Bool
is_today workspace_id start r = (r.workspace_id == workspace_id) && leb start r.created_at

unfoldable pub requests_today : ℕ → ℕ → List EmbeddingRequest → ℕ
unfolding day_start
requests_today workspace_id now rows = count_if (is_today workspace_id (day_start now)) rows

abbrev pub tokens_of : (Text → ℕ) → List Text → ℕ
tokens_of count [] = 0
tokens_of count (t ∷ ts) = count t + tokens_of count ts

abbrev pub request_row : Provider → Call → ℕ → EmbeddingRequest
request_row p call now = record {
  workspace_id = call.workspace_id;
  source_id = call.source_id;
  purpose = call.purpose;
  model = p.model;
  texts = length call.texts;
  tokens = tokens_of p.count_tokens call.texts;
  created_at = now;
}

-- Whether the request is counted. The lock makes the calls of one workspace a sequence.
unfoldable pub record_request :
    Limits → Provider → Call → ℕ → List EmbeddingRequest → List EmbeddingRequest × Bool
unfolding requests_today
record_request limits p call now rows =
    if (p.metered && ltb 0 limits.daily_request_limit)
      && leb limits.daily_request_limit (requests_today call.workspace_id now rows)
    then (rows, false)
    else (rows ++ (request_row p call now ∷ []), true)

pub record Embedding : Type 0 where
  pub rows : List EmbeddingRequest
  pub sent : ℕ
  pub result : Result

-- The loop from `attempt` on, with so many attempts left; the clock and the replies by the attempt.
unfoldable pub embed_from :
    Limits → Provider → Call → (ℕ → ℕ) → (ℕ → Reply) → ℕ → ℕ → ℕ → List EmbeddingRequest → Embedding
unfolding record_request
embed_from limits p call clock reply zero attempt sent rows = record {
  rows = rows;
  sent = sent;
  result = unreachable;
}
embed_from limits p call clock reply (suc left) attempt sent rows =
    let (counted, allowed) = record_request limits p call (clock attempt) rows in
    let rest = embed_from limits p call clock reply left (attempt + 1) (sent + 1) counted in
    if allowed
    then (elim (reply attempt) [
      | answers ↦ record { rows = counted; sent = sent + 1; result = embedded }
      | raises transient daily ↦
          if not transient || daily || attempt == limits.max_retries
          then record { rows = counted; sent = sent + 1; result = raised transient daily }
          else rest
    ])
    else record { rows = counted; sent = sent; result = limit_reached }

unfoldable pub embed :
    Limits → Provider → Call → (ℕ → ℕ) → (ℕ → Reply) → List EmbeddingRequest → Embedding
unfolding embed_from
embed limits p call clock reply rows =
    embed_from limits p call clock reply (limits.max_retries + 1) 0 0 rows

abbrev pub is_on : ℕ → ℕ → EmbeddingRequest → Bool
is_on workspace_id day r = (r.workspace_id == workspace_id) && (day_start r.created_at == day)

-- On every day, no more requests of a workspace than the limit.
unfoldable pub WithinDays : ℕ → List EmbeddingRequest → Type 0
WithinDays limit rows = (workspace_id day : ℕ) → count_if (is_on workspace_id day) rows ≤ limit

-- A request of a day was made since the day began.
is_on-is_today :
    (workspace_id now : ℕ) (rows : List EmbeddingRequest)
    → count_if (is_on workspace_id (day_start now)) rows
      ≤ count_if (is_today workspace_id (day_start now)) rows
unfolding day_start
is_on-is_today workspace_id now [] = omega arith
is_on-is_today workspace_id now (r ∷ rs) = ground (arith, is_on-is_today workspace_id now rs)

record_request-WithinDays :
    (limits : Limits) (p : Provider) (call : Call) (now : ℕ) (rows : List EmbeddingRequest)
    → p.metered ≡ true
    → 0 < limits.daily_request_limit
    → WithinDays limits.daily_request_limit rows
    → WithinDays limits.daily_request_limit (record_request limits p call now rows).0
unfolding record_request requests_today WithinDays
record_request-WithinDays limits p call now rows metered positive h w day =
    let used = requests_today call.workspace_id now rows in
    elim (Bool-cases
      ((p.metered && ltb 0 limits.daily_request_limit) && leb limits.daily_request_limit used)) [
        | inl e ↦ rw e (h w day)
        | inr e ↦ rw e (
            ground (
              arith,
              h w day,
              count_if-append (is_on w day) rows (request_row p call now ∷ []),
              is_on-is_today call.workspace_id now rows,
              ap (λ k. count_if (is_on k day) rows) {x = call.workspace_id} {y = w},
              ap (λ k. count_if (is_on w k) rows) {x = day_start now} {y = day},
            ))
      ]

record_request-length :
    (limits : Limits) (p : Provider) (call : Call) (now : ℕ) (rows : List EmbeddingRequest)
    → length (record_request limits p call now rows).0
      ≡ length rows + (if (record_request limits p call now rows).1 then 1 else 0)
unfolding record_request
record_request-length limits p call now rows =
    elim (Bool-cases (
      (p.metered && ltb 0 limits.daily_request_limit)
      && leb limits.daily_request_limit (requests_today call.workspace_id now rows))) [
        | inl e ↦ rw e (omega arith)
        | inr e ↦ rw e (length-append rows (request_row p call now ∷ []))
      ]

-- How a loop of so many attempts ends, from so many rows and requests sent.
abbrev pub Bounded : Limits → ℕ → ℕ → ℕ → Embedding → Type 0
Bounded limits left count sent e =
    WithinDays limits.daily_request_limit e.rows
    × (length e.rows + sent ≡ count + e.sent)
    × (e.sent ≤ sent + left)

pub Reply-cases :
    (r : Reply)
    → (r ≡ answers) ⊎ ((transient : Bool) × (daily : Bool) × (r ≡ raises transient daily))
Reply-cases answers = inl refl
Reply-cases (raises transient daily) = inr (transient, daily, refl)

pub embed_from-Bounded :
    (limits : Limits) (p : Provider) (call : Call) (clock : ℕ → ℕ) (reply : ℕ → Reply)
    (left attempt sent : ℕ) (rows : List EmbeddingRequest)
    → p.metered ≡ true
    → 0 < limits.daily_request_limit
    → attempt + left ≡ limits.max_retries + 1
    → 0 < left
    → WithinDays limits.daily_request_limit rows
    → Bounded limits left
        (length rows)
        sent
        (embed_from limits p call clock reply left attempt sent rows)
unfolding embed_from
embed_from-Bounded limits p call clock reply zero attempt sent rows metered positive same more h =
    absurd (omega arith)
embed_from-Bounded limits p call clock reply (suc left) attempt sent rows metered positive same more
      h =
    let counted = (record_request limits p call (clock attempt) rows).0 in
    let within = record_request-WithinDays limits p call (clock attempt) rows metered positive h in
    let one = record_request-length limits p call (clock attempt) rows in
    elim (Bool-cases (record_request limits p call (clock attempt) rows).1) [
      | inr e ↦ rw e (within, ground arith, omega arith)
      | inl e ↦ elim (Reply-cases (reply attempt)) [
        | inl f ↦ rw e (rw f (within, ground arith, omega arith))
        | inr (transient, daily, f) ↦
            elim (Bool-cases (not transient || daily || attempt == limits.max_retries)) [
              | inl g ↦ rw e (rw f (rw g (within, ground arith, omega arith)))
              | inr g ↦
                  let (a, b, c) =
                    embed_from-Bounded limits p call clock reply left (attempt + 1) (sent + 1)
                      counted metered positive (omega arith) (ground arith) within in
                  rw e (rw f (rw g (a, ground arith, omega arith)))
            ]
      ]
    ]
