-- ===== src/Generation/Runner.antt =====
-- api/services/ai_runner.py: a generation relayed from its provider to the stream, and its end.
use synapse_canvas.Base.{
  ℕ, ◌+◌, ◌/◌, Bool, true, false, ◌&&◌, Option, none, some, List, [], ◌∷◌, ◌++◌, leb, if◌then◌else◌,
  length,
}
use synapse_canvas.Base.Dict.{Dict}
use synapse_canvas.ProseMirror.Utf16.{Text}
use synapse_canvas.Queries.{
  AiQuery, ErrorCode, Status, Outcome, TokenUsage, ai_failed, ai_timeout, server_error, completed,
  cancelled, failed, zero_if_none, finish, prompt_tokens_of, completion_tokens_of,
}
use synapse_canvas.Generation.{
  EntryId, EventData, Event, token, done, error, stopped, append, text_or_empty, ids_or_empty,
  code_or_failed, interrupted,
}

-- What `ai_buffer.control` gives: a cancel requested, and someone reading; or it raises, or the task
-- is cancelled by a shutdown while it waits.
pub data Control : Type 0 where
  flags : Bool → Bool → Control
  control_raises : Control
  control_shut_down : Control

-- What `queue.get` gives until the next check. A text is appended to the stream under an id, unless
-- Redis fails.
pub data Item : Type 0 where
  timed_out : Item
  text : Text → Option EntryId → Item
  usage : TokenUsage → Item
  provider_refused : ErrorCode → Item
  provider_raised : Item
  shut_down : Item

-- A round of `_relay`.
pub record Tick : Type 0 where
  pub now : ℕ
  pub control : Control
  pub item : Item

pub record Relayed : Type 0 where
  pub outcome : Outcome
  pub produced : List Text
  pub stream : List Event

abbrev pub ended_as_status : Status → Outcome
ended_as_status status = record {
  status = status;
  response = none;
  error_code = none;
  usage = none;
  citations = none;
}

abbrev pub failed_with : ErrorCode → Outcome
failed_with code = record {
  status = failed;
  response = none;
  error_code = some code;
  usage = none;
  citations = none;
}

-- `"".join(produced)`
unfoldable pub join : List Text → Text
join [] = []
join (t ∷ ts) = t ++ join ts

-- The check at a round when one is due: the outcome that it stops with, if any.
unfoldable pub check : ℕ → ℕ → Control → Option Outcome
check deadline now (flags true reading) = some (ended_as_status cancelled)
check deadline now (flags false false) = some (ended_as_status cancelled)
check deadline now (flags false true) =
    if leb deadline now then some (failed_with ai_timeout) else none
check deadline now control_raises = some (failed_with ai_failed)
check deadline now control_shut_down = some interrupted

abbrev pub completed_with : List Text → TokenUsage → Outcome
completed_with produced used = record {
  status = completed;
  response = some (join produced);
  error_code = none;
  usage = some used;
  citations = none;
}

-- What an item does: the loop ends, or goes on with what was produced and the stream.
pub data Step : Type 0 where
  ends_with : Relayed → Step
  goes_on : List Text → List Event → Step

unfoldable pub take_item : Item → List Text → List Event → Step
unfolding join append
take_item timed_out produced stream = goes_on produced stream
take_item (usage used) produced stream =
    ends_with
      (record { outcome = completed_with produced used; produced = produced; stream = stream })
take_item (provider_refused code) produced stream =
    ends_with (record { outcome = failed_with code; produced = produced; stream = stream })
take_item provider_raised produced stream =
    ends_with (record { outcome = failed_with ai_failed; produced = produced; stream = stream })
take_item shut_down produced stream =
    ends_with (record { outcome = interrupted; produced = produced; stream = stream })
take_item (text new (some id)) produced stream =
    goes_on (produced ++ (new ∷ [])) (append id (token new) stream)
take_item (text new none) produced stream =
    ends_with (record {
      outcome = failed_with ai_failed;
      produced = produced ++ (new ∷ []);
      stream = stream;
    })

-- `_relay` with the handlers of `_run` around it, for the rounds that there were; none while it runs.
unfoldable pub relay : ℕ → ℕ → List Tick → ℕ → List Text → List Event → Option Relayed
unfolding check take_item
relay deadline interval [] next_check produced stream = none
relay deadline interval (t ∷ ts) next_check produced stream =
    let due = leb next_check t.now in
    let later = if due then t.now + interval else next_check in
    elim (if due then check deadline t.now t.control else none) [
      | some outcome ↦ some (record { outcome = outcome; produced = produced; stream = stream })
      | none ↦ elim (take_item t.item produced stream) [
        | ends_with relayed ↦ some relayed
        | goes_on produced' stream' ↦ relay deadline interval ts later produced' stream'
      ]
    ]

abbrev pub is_failed_status : Status → Bool
is_failed_status failed = true
is_failed_status _ = false

abbrev pub is_completed_status : Status → Bool
is_completed_status completed = true
is_completed_status _ = false

abbrev pub is_none_produced : List Text → Bool
is_none_produced [] = true
is_none_produced (_ ∷ _) = false

-- `estimate_tokens`
unfoldable pub estimate_tokens : Text → ℕ
estimate_tokens t = (length t + 2) / 3

-- The prompt that was sent, its system and user parts.
unfoldable pub estimated_usage : Text → List Text → Outcome → Option TokenUsage
unfolding estimate_tokens join
estimated_usage prompt produced outcome =
    if is_failed_status outcome.status && is_none_produced produced
    then none
    else some (record {
      prompt_tokens = estimate_tokens prompt;
      completion_tokens = estimate_tokens (join produced);
    })

unfoldable pub terminal_event : Outcome → EventData
terminal_event outcome = elim outcome.status [
  | completed ↦
      done (text_or_empty outcome.response) (zero_if_none (prompt_tokens_of outcome.usage))
        (zero_if_none (completion_tokens_of outcome.usage)) (ids_or_empty outcome.citations)
  | cancelled ↦ stopped
  | _ ↦ error (code_or_failed outcome.error_code)
]

-- What the end of a run meets: the prompt, the passages that a text cites, the clock, and whether
-- the database and Redis answer.
pub record Ending : Type 0 where
  pub prompt : Text
  pub resolve : Text → List ℕ
  pub now : ℕ
  pub db_answers : Bool
  pub entry_id : Option EntryId

abbrev pub or_estimate : Option TokenUsage → Option TokenUsage → Option TokenUsage
or_estimate none estimate = estimate
or_estimate (some used) estimate = some used

abbrev pub resolved : Ending → Outcome → Option (List ℕ)
resolved at outcome =
    if is_completed_status outcome.status
    then some (at.resolve (text_or_empty outcome.response))
    else outcome.citations

-- The outcome with its usage and its citations.
unfoldable pub accounted : Ending → List Text → Outcome → Outcome
unfolding estimated_usage
accounted at produced outcome = record outcome {
  usage = or_estimate outcome.usage (estimated_usage at.prompt produced outcome);
  citations = resolved at outcome;
}

unfoldable pub publish : Option EntryId → Outcome → List Event → List Event
unfolding append terminal_event
publish none outcome stream = stream
publish (some id) outcome stream = append id (terminal_event outcome) stream

-- `_finish`: the row first, then the terminal event.
unfoldable pub finish_run : Ending → ℕ → Relayed → Dict AiQuery → Dict AiQuery × List Event
unfolding accounted finish publish
finish_run at id r queries =
    let outcome = accounted at r.produced r.outcome in
    let (after, recorded) = finish queries id outcome at.now in
    if at.db_answers
    then (
      after,
      publish at.entry_id (if recorded then outcome else failed_with ai_timeout) r.stream,
    )
    else (queries, publish at.entry_id (failed_with server_error) r.stream)
