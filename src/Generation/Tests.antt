-- ===== src/Generation/Tests.antt =====
-- A generation of two tokens: run, read, and read again after a lost connection.
use synapse_canvas.Base.{
  ℕ, ◌≤◌, length, ◌≡◌, refl, true, false, none, some, List, [], ◌∷◌, ◌++◌, is_some, arith,
}
use synapse_canvas.Base.Dict.{Dict, lookup}
use synapse_canvas.Queries.{AiQuery, ask, streaming, completed, is_streaming}
use synapse_canvas.Generation.{
  EntryId, Event, EventData, token, done, error, append, terminal_from_row, upto, ends, read,
  follow_live, follow, start_id, last_id, Round,
}
use synapse_canvas.Generation.Resume.{Prefix, events_of, rest_after}
use synapse_canvas.Generation.Whole.{ReadsAll}
use synapse_canvas.Generation.Once.{resumed_once}
use synapse_canvas.Generation.Closing.{closes, follow-closes}
use synapse_canvas.Generation.Runner.{
  Tick, flags, text, usage, timed_out, Relayed, relay, check, take_item, join, Ending, finish_run,
  is_completed_status,
}
use synapse_canvas.Generation.Published.{run_published, stream_text}
use synapse_canvas.Generation.Deadline.{relay_ends}
use synapse_canvas.Queries.{ai_interrupted}

abbrev event : EntryId → EventData → Event
event id content = record { id = id; content = content }

abbrev tokens : List Event
tokens = event (1, 0) (token (b'a' ∷ [])) ∷ event (1, 1) (token (b'b' ∷ [])) ∷ []

abbrev whole_stream : List Event
whole_stream = tokens ++ (event (2, 0) (done (b'a' ∷ b'b' ∷ []) 3 2 []) ∷ [])

abbrev running : AiQuery
running = record {
  document_id = 1;
  workspace_id = 1;
  user_id = none;
  mode = ask;
  selection_from = none;
  selection_to = none;
  status = streaming;
  response = none;
  error_code = none;
  prompt_tokens = none;
  completion_tokens = none;
  citations = none;
  created_at = 0;
  completed_at = none;
}

-- A round that finds the first entries of the stream.
abbrev finds : ℕ → Round
finds n = record {
  count = n;
  now = 1;
  alive = false;
  late_count = n;
  abandoned = error ai_interrupted;
}

abbrev first_token : List Event
first_token = event (1, 0) (token (b'a' ∷ [])) ∷ []

resumed_once_example :
    let again = follow whole_stream 5 running (finds 3 ∷ []) (last_id start_id first_token) 9 in
    Prefix (first_token ++ events_of again.0) (upto (rest_after whole_stream start_id))
    × (ReadsAll whole_stream (finds 3 ∷ [])
        → length (rest_after whole_stream (last_id start_id first_token)) ≤ 500
        → again.1 ≡ true
        → first_token ++ events_of again.0 ≡ upto (rest_after whole_stream start_id))
unfolding follow follow_live read events_of
resumed_once_example =
    resumed_once whole_stream 5 running running (finds 1 ∷ []) (finds 3 ∷ []) start_id 0 9
      first_token [] ((refl, (refl, tt)), ((refl, tt), (tt, tt))) refl refl

follow-closes_example :
    ((follow whole_stream 5 running (finds 1 ∷ finds 1 ∷ finds 3 ∷ finds 3 ∷ []) start_id 0).1
      ≡ true)
    × (closes
          (follow whole_stream 5 running (finds 1 ∷ finds 1 ∷ finds 3 ∷ finds 3 ∷ []) start_id 0).0
        ≡ true)
follow-closes_example =
    follow-closes whole_stream 5 running (finds 1 ∷ finds 1 ∷ finds 3 ∷ finds 3 ∷ []) start_id 0
      ((refl, (refl, tt)), ((refl, tt), (tt, tt))) (refl, (refl, (refl, (refl, tt))))
      (refl, (refl, (refl, (refl, tt)))) (omega arith)

abbrev tick : ℕ → Tick
tick now = record { now = now; control = flags false true; item = timed_out }

relay_ends_example : is_some (relay 10 1 (tick 3 ∷ tick 9 ∷ tick 12 ∷ []) 0 [] []) ≡ true
relay_ends_example = relay_ends 10 1 (tick 3 ∷ tick 9 ∷ tick 12 ∷ []) 0 [] [] (omega arith) refl

abbrev generation : List Tick
generation =
    record (tick 0) { item = text (b'a' ∷ []) (some (1, 0)) }
    ∷ record (tick 1) { item = text (b'b' ∷ []) (some (1, 1)) }
    ∷ record (tick 2) { item = usage (record { prompt_tokens = 3; completion_tokens = 2 }) }
    ∷ []

abbrev relayed : Relayed
relayed = record {
  outcome = record {
    status = completed;
    response = some (b'a' ∷ b'b' ∷ []);
    error_code = none;
    usage = some (record { prompt_tokens = 3; completion_tokens = 2 });
    citations = none;
  };
  produced = (b'a' ∷ []) ∷ (b'b' ∷ []) ∷ [];
  stream = tokens;
}

abbrev ending : Ending
ending = record {
  prompt = b'?' ∷ [];
  resolve = λ response. [];
  now = 2;
  db_answers = true;
  entry_id = some (2, 0);
}

abbrev one_running : Dict AiQuery
one_running = (7, running) ∷ []

run_published_example :
    (row : AiQuery) × (lookup 7 (finish_run ending 7 relayed one_running).0 ≡ some row)
    × (is_streaming row ≡ false)
    × ((finish_run ending 7 relayed one_running).1 ≡ append (2, 0) (terminal_from_row row) tokens)
    × (ends tokens ≡ false)
    × (is_completed_status row.status ≡ true → row.response ≡ some (stream_text tokens))
unfolding relay check take_item join append
run_published_example =
    run_published 10 1 generation relayed ending 7 running one_running (2, 0) refl refl refl refl
      refl
