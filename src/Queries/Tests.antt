-- ===== src/Queries/Tests.antt =====
-- A workspace with one generation at a time, and a response that is inserted.
use synapse_canvas.Base.{
  ◌-◌, ℕ, ◌≤◌, ◌<◌, ◌≡◌, ◌≢◌, ◌⊎◌, refl, [], ◌∷◌, true, false, none, some, arith, if◌then◌else◌,
  ◌==◌, ◌+◌,
}
use synapse_canvas.Base.Dict.{Dict, lookup}
use synapse_canvas.ProseMirror.Edit.{Edit, insert_after}
use synapse_canvas.ProseMirror.Edit.Inline.{strip, is_space}
use synapse_canvas.Document.{
  Db, Document, AppliedChange, create_document, find_document, apply_change, empty_document, steps,
  replace_step,
}
use synapse_canvas.Document.Head.{run}
use synapse_canvas.Queries.{
  AiQuery, Settings, Outcome, ask, streaming, completed, cancelled, within_limits,
  concurrency_limit, daily_limit, streaming_queries, tokens_used, day_start, judge_usage,
  expire_abandoned, admit_query, ended_as, finish,
}
use synapse_canvas.Queries.Rows.{begins, continues, admits}
use synapse_canvas.Queries.Final.{finish_once}
use synapse_canvas.Queries.Budget.{Reach-concurrency, admit_query-daily}
use synapse_canvas.Queries.Apply.{Result, apply_query, ok, edit_for, check_bounds}
use synapse_canvas.Queries.Apply.Once.{is_ready, apply_query-stores, apply_query_once}

abbrev one_at_a_time : Settings
one_at_a_time = record {
  daily_token_limit = 100;
  max_concurrent_queries = 1;
  query_timeout_seconds = 60;
}

abbrev question : AiQuery
question = record {
  document_id = 5;
  workspace_id = 9;
  user_id = some 3;
  mode = ask;
  selection_from = none;
  selection_to = none;
  status = streaming;
  response = none;
  error_code = none;
  prompt_tokens = none;
  completion_tokens = none;
  citations = none;
  created_at = 1000;
  completed_at = none;
}

abbrev answered : Outcome
answered = record {
  status = completed;
  response = some (b'O' ∷ b'k' ∷ []);
  error_code = none;
  usage = some (record { prompt_tokens = 10; completion_tokens = 2 });
  citations = none;
}

abbrev cancels : Outcome
cancels = record {
  status = cancelled;
  response = none;
  error_code = none;
  usage = none;
  citations = none;
}

abbrev admitted : Dict AiQuery
admitted = (admit_query [] one_at_a_time 1000 1 question 20).0

-- The second waits for the first.
abbrev refused : Dict AiQuery
refused = (admit_query admitted one_at_a_time 1001 2 question 20).0

Reach-concurrency_example : streaming_queries refused 9 ≤ 1
unfolding admit_query expire_abandoned judge_usage tokens_used streaming_queries day_start
Reach-concurrency_example =
    Reach-concurrency {settings = one_at_a_time} {start = []} 9 (omega arith) (omega arith) (
      continues (continues begins (admits [] 1000 1 question 20 refl))
        (admits admitted 1001 2 question 20 refl))

finish_once_example :
    ((q : AiQuery) × (lookup 1 admitted ≡ some q)
      × (lookup 1 (finish admitted 1 answered 1005).0 ≡ some (ended_as answered 1005 q)))
    × (finish (finish admitted 1 answered 1005).0 1 cancels 1006
        ≡ ((finish admitted 1 answered 1005).0, false))
unfolding admit_query expire_abandoned judge_usage tokens_used streaming_queries day_start finish
finish_once_example =
    finish_once {settings = one_at_a_time} admitted 1 answered cancels 1005 1006 refl refl begins

admit_query-daily_example :
    let kept = expire_abandoned [] one_at_a_time 9 1000 in
    let out = admit_query [] one_at_a_time 1000 1 question 20 in
    let running = streaming_queries kept 9 in
    let used = tokens_used kept 9 (day_start 1000) in
    ((out.1 ≡ within_limits)
      × (lookup 1 out.0 ≡ some question)
      × (0 < 1 → running < 1)
      × (0 < 100 → used + 20 ≤ 100))
    ⊎ ((out ≡ ([], concurrency_limit running)) × (0 < 1) × (1 ≤ running))
    ⊎ ((out ≡ ([], daily_limit (day_start 1000 + 86400 - 1000 + 1)))
        × (0 < 100)
        × (100 < used + 20))
admit_query-daily_example = admit_query-daily [] one_at_a_time 1000 1 question 20

abbrev answer : AiQuery
answer = ended_as answered 1005 question

abbrev tables : Db
tables = (create_document (record { documents = []; changes = [] }) 5 50 900 9 (some 3) [] none).0

abbrev inserted : Db × Result AppliedChange
inserted = apply_query tables 1 answer 3 1 none none 51 1010

abbrev head_edit : Edit
head_edit = insert_after empty_document none (b'O' ∷ b'k' ∷ [])

abbrev edit_applied : AppliedChange
edit_applied = record {
  document = record {
    id = 5;
    row = record {
      workspace_id = 9;
      title = [];
      body = head_edit.result;
      version = 2;
      created_by = some 3;
      created_at = 900;
      updated_at = 1010;
    };
  };
  change_id = 51;
  base_version = 1;
  operation =
      steps (replace_step head_edit.step_from head_edit.step_to head_edit.slice ∷ []) (some 1);
  user_id = some 3;
}

inserted-ok : inserted.1 ≡ ok edit_applied
unfolding create_document apply_query edit_for check_bounds apply_change find_document strip
    is_space
inserted-ok = refl

apply_query_once_example :
    ((apply_query (run inserted.0 []) 1 answer 3 1 none none 52 1011).0 ≡ run inserted.0 [])
    × ((b : AppliedChange)
        → (apply_query (run inserted.0 []) 1 answer 3 1 none none 52 1011).1 ≢ ok b)
apply_query_once_example =
    apply_query_once tables 1 answer 3 1 none none 51 1010 _ [] 1 answer 3 none none 52 1011
      (inserted-ok) refl refl

apply_query-stores_example :
    (is_ready answer ≡ true)
    × ((d : Document) × (edit : Edit) × (row : Document) × (find_document tables 9 5 ≡ some d)
        × (d.version ≡ 1)
        × (edit_for answer d.body none none ≡ some edit)
        × (row.body ≡ edit.result)
        × (row.title ≡ d.title)
        × (row.version ≡ 1 + 1)
        × ((j : ℕ)
            → lookup j inserted.0.documents
              ≡ (if j == 5 then some row else lookup j tables.documents)))
apply_query-stores_example =
    apply_query-stores tables 1 answer 3 1 none none 51 1010 edit_applied inserted-ok
