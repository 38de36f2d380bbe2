-- ===== src/Queries.antt =====
-- api/services/ai_queries.py and ai_usage.py, with api/models/ai_query.py: AI queries, from the
-- limits of a workspace to the edit that a response becomes. Times are in seconds.
pub mod Rows
pub mod Final
pub mod Budget
pub mod Apply
mod Tests
use synapse_canvas.Base.{
  ℕ, suc, ◌+◌, ◌-◌, ◌*◌, ◌/◌, List, [], ◌∷◌, Bool, true, false, not, ◌&&◌, ◌||◌, Option, none, some,
  ltb, leb, ◌==◌, if◌then◌else◌, max, is_some, map, any,
}
use synapse_canvas.Base.Dict.{Dict, lookup, insert}
use synapse_canvas.ProseMirror.Utf16.{Text}
use synapse_canvas.ProseMirror.Node.{Node, content_size}
use synapse_canvas.ProseMirror.Edit.{Edit, replace_selection, insert_after, snap_selection}
use synapse_canvas.ProseMirror.Edit.Inline.{strip}
use synapse_canvas.Document

pub data Mode : Type 0 where
  continue_text rewrite summarize ask sources : Mode

pub data Status : Type 0 where
  streaming completed cancelled failed : Status

pub data ErrorCode : Type 0 where
  ai_timeout ai_interrupted ai_failed server_error provider_error : ErrorCode

-- A row of `ai_queries`; its id is the key of the table. Of the response's citations it has the
-- passages' ids.
pub record AiQuery : Type 0 where
  pub document_id : ℕ
  pub workspace_id : ℕ
  pub user_id : Option ℕ
  pub mode : Mode
  pub selection_from : Option ℕ
  pub selection_to : Option ℕ
  pub status : Status
  pub response : Option Text
  pub error_code : Option ErrorCode
  pub prompt_tokens : Option ℕ
  pub completion_tokens : Option ℕ
  pub citations : Option (List ℕ)
  pub created_at : ℕ
  pub completed_at : Option ℕ

pub record Settings : Type 0 where
  pub daily_token_limit : ℕ
  pub max_concurrent_queries : ℕ
  pub query_timeout_seconds : ℕ

pub record TokenUsage : Type 0 where
  pub prompt_tokens : ℕ
  pub completion_tokens : ℕ

pub record Outcome : Type 0 where
  pub status : Status
  pub response : Option Text
  pub error_code : Option ErrorCode
  pub usage : Option TokenUsage
  pub citations : Option (List ℕ)

abbrev pub is_streaming_status : Status → Bool
is_streaming_status streaming = true
is_streaming_status _ = false

abbrev pub is_streaming : AiQuery → Bool
is_streaming q = is_streaming_status q.status

abbrev pub zero_if_none : Option ℕ → ℕ
zero_if_none none = 0
zero_if_none (some n) = n

-- `_day_bounds`, the start of the UTC day; it ends 86400 seconds later.
unfoldable pub day_start : ℕ → ℕ
day_start now = now / 86400 * 86400

abbrev pub ended_since : ℕ → Option ℕ → Bool
ended_since start none = false
ended_since start (some at) = leb start at

-- The two sums of `get_usage`.
unfoldable pub tokens_used : Dict AiQuery → ℕ → ℕ → ℕ
tokens_used [] workspace start = 0
tokens_used (q ∷ qs) workspace start =
    (if q.1.workspace_id == workspace && ended_since start q.1.completed_at
      then zero_if_none q.1.prompt_tokens + zero_if_none q.1.completion_tokens
      else 0)
    + tokens_used qs workspace start

unfoldable pub streaming_queries : Dict AiQuery → ℕ → ℕ
streaming_queries [] workspace = 0
streaming_queries (q ∷ qs) workspace =
    (if q.1.workspace_id == workspace && is_streaming q.1 then 1 else 0)
    + streaming_queries qs workspace

-- `tokens_remaining`; a limit of 0 is off.
pub tokens_remaining : ℕ → ℕ → ℕ
tokens_remaining daily_token_limit used =
    if daily_token_limit == 0 then 0 else daily_token_limit - used

abbrev pub expire : ℕ → AiQuery → AiQuery
expire now q = record q { status = failed; error_code = some ai_timeout; completed_at = some now }

-- `AIQuery.created_at < now - timeout`
abbrev pub is_abandoned : Settings → ℕ → ℕ → AiQuery → Bool
is_abandoned settings workspace now q =
    q.workspace_id == workspace
    && is_streaming q
    && ltb (q.created_at + settings.query_timeout_seconds) now

unfoldable pub expire_abandoned : Dict AiQuery → Settings → ℕ → ℕ → Dict AiQuery
expire_abandoned [] settings workspace now = []
expire_abandoned (q ∷ qs) settings workspace now =
    (if is_abandoned settings workspace now q.1 then (q.0, expire now q.1) else q)
    ∷ expire_abandoned qs settings workspace now

-- What `enforce` raises.
pub data Limit : Type 0 where
  within_limits : Limit
  concurrency_limit : ℕ → Limit
  daily_limit : ℕ → Limit

-- The checks of `enforce`, on the rows that `expire_abandoned` leaves; the answer to too many
-- tokens is the seconds until the day ends.
unfoldable pub judge_usage : Dict AiQuery → Settings → ℕ → ℕ → ℕ → Limit
unfolding tokens_used streaming_queries day_start
judge_usage queries settings workspace now estimated_tokens =
    let running = streaming_queries queries workspace in
    let used = tokens_used queries workspace (day_start now) in
    if ltb 0 settings.max_concurrent_queries && leb settings.max_concurrent_queries running
    then concurrency_limit running
    else if ltb 0 settings.daily_token_limit
        && ltb settings.daily_token_limit (used + estimated_tokens)
    then daily_limit (day_start now + 86400 - now + 1)
    else within_limits

-- The end of `create_query`, from `lock_workspace` on: the lock makes the calls of one workspace a
-- sequence. A refusal rolls the expiry back with it.
unfoldable pub admit_query : Dict AiQuery → Settings → ℕ → ℕ → AiQuery → ℕ → Dict AiQuery × Limit
unfolding expire_abandoned judge_usage
admit_query queries settings now id query estimated_tokens =
    let kept = expire_abandoned queries settings query.workspace_id now in
    elim (judge_usage kept settings query.workspace_id now estimated_tokens) [
      | within_limits ↦ (insert id query kept, within_limits)
      | concurrency_limit n ↦ (queries, concurrency_limit n)
      | daily_limit n ↦ (queries, daily_limit n)
    ]

abbrev pub prompt_tokens_of : Option TokenUsage → Option ℕ
prompt_tokens_of none = none
prompt_tokens_of (some u) = some u.prompt_tokens

abbrev pub completion_tokens_of : Option TokenUsage → Option ℕ
completion_tokens_of none = none
completion_tokens_of (some u) = some u.completion_tokens

abbrev pub or_keep : Option (List ℕ) → Option (List ℕ) → Option (List ℕ)
or_keep none old = old
or_keep (some new) old = some new

abbrev pub ended_as : Outcome → ℕ → AiQuery → AiQuery
ended_as outcome now q = record q {
  status = outcome.status;
  response = outcome.response;
  error_code = outcome.error_code;
  prompt_tokens = prompt_tokens_of outcome.usage;
  completion_tokens = completion_tokens_of outcome.usage;
  citations = or_keep outcome.citations q.citations;
  completed_at = some now;
}

unfoldable pub finish : Dict AiQuery → ℕ → Outcome → ℕ → Dict AiQuery × Bool
finish queries id outcome now = elim (lookup id queries) [
  | none ↦ (queries, false)
  | some q ↦
      if is_streaming q
      then (insert id (ended_as outcome now q) queries, true)
      else (queries, false)
]
