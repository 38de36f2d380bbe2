-- ===== src/Generation.antt =====
-- api/services/ai_buffer.py and ai_stream.py: the events of a generation in a Redis stream, and what
-- one reader is sent of them. An entry's id is the pair of numbers that its text writes.
pub mod Resume
pub mod Whole
pub mod Once
pub mod Closing
pub mod Runner
pub mod Deadline
pub mod Published
mod Tests
use synapse_canvas.Base.{
  ℕ, ◌+◌, ◌-◌, ◌≡◌, Bool, true, false, not, ◌&&◌, ◌||◌, Option, none, some, List, [], ◌∷◌, ◌++◌,
  ltb, leb, ◌==◌, if◌then◌else◌, keep, take,
}
use synapse_canvas.Base.Dict.{Dict, lookup}
use synapse_canvas.ProseMirror.Utf16.{Text}
use synapse_canvas.Queries.{
  AiQuery, ErrorCode, Status, Outcome, ai_failed, ai_interrupted, completed, cancelled, failed,
  streaming, zero_if_none, is_streaming, finish,
}

abbrev pub EntryId : Type 0
EntryId = ℕ × ℕ

-- The type and data of an event.
pub data EventData : Type 0 where
  token : Text → EventData
  done : Text → ℕ → ℕ → List ℕ → EventData
  error : ErrorCode → EventData
  stopped : EventData

pub record Event : Type 0 where
  pub id : EntryId
  pub content : EventData

-- What a reader is sent: an entry of the stream, the end made from the row, or a keepalive.
pub data Sent : Type 0 where
  entry : Event → Sent
  from_row : EventData → Sent
  keepalive : Sent

-- `START`
abbrev pub start_id : EntryId
start_id = (0, 0)

-- `TERMINAL`
abbrev pub is_terminal : EventData → Bool
is_terminal (token _) = false
is_terminal _ = true

-- XADD, which gives an id.
unfoldable pub append : EntryId → EventData → List Event → List Event
append id content stream = stream ++ (record { id = id; content = content } ∷ [])

-- The order of entry ids in Redis.
abbrev pub is_after : EntryId → EntryId → Bool
is_after a b = ltb a.0 b.0 || ((a.0 == b.0) && ltb a.1 b.1)

abbrev pub comes_after : EntryId → Event → Bool
comes_after after e = is_after after e.id

unfoldable pub read : List Event → EntryId → List Event
read stream after = take 500 (keep (comes_after after) stream)

abbrev pub text_or_empty : Option Text → Text
text_or_empty none = []
text_or_empty (some text) = text

abbrev pub ids_or_empty : Option (List ℕ) → List ℕ
ids_or_empty none = []
ids_or_empty (some ids) = ids

abbrev pub code_or_failed : Option ErrorCode → ErrorCode
code_or_failed none = ai_failed
code_or_failed (some code) = code

unfoldable pub terminal_from_row : AiQuery → EventData
terminal_from_row query = elim query.status [
  | completed ↦
      done (text_or_empty query.response) (zero_if_none query.prompt_tokens)
        (zero_if_none query.completion_tokens) (ids_or_empty query.citations)
  | cancelled ↦ stopped
  | _ ↦ error (code_or_failed query.error_code)
]

abbrev pub interrupted : Outcome
interrupted = record {
  status = failed;
  response = none;
  error_code = some ai_interrupted;
  usage = none;
  citations = none;
}

-- `_abandon`: the row ended here, unless it has ended, and read back.
unfoldable pub abandon : Dict AiQuery → ℕ → ℕ → Dict AiQuery × EventData
unfolding finish terminal_from_row
abandon queries id now =
    let after = (finish queries id interrupted now).0 in
    elim (lookup id after) [
      | none ↦ (after, error ai_interrupted)
      | some query ↦ (after, terminal_from_row query)
    ]

-- The events up to the first terminal one, that one included.
unfoldable pub upto : List Event → List Event
upto [] = []
upto (e ∷ es) = if is_terminal e.content then e ∷ [] else e ∷ upto es

abbrev pub ends : List Event → Bool
ends [] = false
ends (e ∷ es) = is_terminal e.content || ends es

abbrev pub entries : List Event → List Sent
entries [] = []
entries (e ∷ es) = entry e ∷ entries es

abbrev pub last_id : EntryId → List Event → EntryId
last_id after [] = after
last_id after (e ∷ es) = last_id e.id es

-- A round of the loop of `follow`: how many entries of the stream there are when it is read, the
-- clock, whether the runner lives, how many entries there are at a second read, and the end that
-- `_abandon` gives.
pub record Round : Type 0 where
  pub count : ℕ
  pub now : ℕ
  pub alive : Bool
  pub late_count : ℕ
  pub abandoned : EventData

-- The last read of a reader whose runner is gone, then the end from the row.
unfoldable pub last_words : List Event → EntryId → EventData → List Sent
unfolding read upto
last_words stream after ending =
    let late = read stream after in
    if ends late then entries (upto late) else entries late ++ (from_row ending ∷ [])

abbrev pub is_empty : List Event → Bool
is_empty [] = true
is_empty (_ ∷ _) = false

-- The loop, for the rounds that the reader stays; whether it ended.
unfoldable pub follow_live : List Event → ℕ → List Round → EntryId → ℕ → List Sent × Bool
unfolding read upto last_words
follow_live stream every [] after last_sent = ([], false)
follow_live stream every (r ∷ rs) after last_sent =
    let batch = read (take r.count stream) after in
    let due = leb (last_sent + every) r.now in
    let signs = if due then keepalive ∷ [] else [] in
    let more = follow_live stream every rs (last_id after batch) r.now in
    let idle = follow_live stream every rs after (if due then r.now else last_sent) in
    if ends batch
    then (entries (upto batch), true)
    else if not (is_empty batch)
    then (entries batch ++ more.0, more.1)
    else if r.alive
    then (signs ++ idle.0, idle.1)
    else (signs ++ last_words (take r.late_count stream) after r.abandoned, true)

-- `follow` on a row that has ended.
unfoldable pub follow_ended : List Event → AiQuery → EntryId → List Sent
unfolding last_words terminal_from_row
follow_ended stream query after = last_words stream after (terminal_from_row query)

unfoldable pub follow : List Event → ℕ → AiQuery → List Round → EntryId → ℕ → List Sent × Bool
unfolding follow_live follow_ended
follow stream every query rounds after now =
    if is_streaming query
    then follow_live stream every rounds after now
    else (follow_ended stream query after, true)
