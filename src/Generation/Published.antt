-- ===== src/Generation/Published.antt =====
-- `_relay` and `run` of api/services/ai_runner.py: the end that the row and the stream tell.
use synapse_canvas.Base.{
  ℕ, ◌≡◌, refl, sym, ap, subst, ◌∙◌, true, false, ◌||◌, none, some, List, [], ◌∷◌, ◌++◌, arith, inl,
  inr, append-nil, append_assoc,
}
use synapse_canvas.Base.Dict.{Dict, lookup, lookup-insert}
use synapse_canvas.ProseMirror.Utf16.{Text}
use synapse_canvas.Queries.{AiQuery, Outcome, is_streaming, is_streaming_status, ended_as, finish}
use synapse_canvas.Generation.{
  EntryId, EventData, Event, token, append, is_terminal, ends, terminal_from_row,
}
use synapse_canvas.Generation.Runner.{
  Control, flags, control_raises, control_shut_down, Item, timed_out, text, usage, provider_refused,
  provider_raised, shut_down, Tick, Relayed, join, check, ends_with, goes_on, take_item, relay,
  is_completed_status, terminal_event, Ending, accounted, publish, finish_run,
}
use synapse_canvas.Generation.Deadline.{later, relay-Ends}

-- The text of the token events.
abbrev pub token_text : EventData → Text
token_text (token new) = new
token_text _ = []

unfoldable pub stream_text : List Event → Text
stream_text [] = []
stream_text (e ∷ es) = token_text e.content ++ stream_text es

stream_text-token :
    (id : EntryId) (new : Text) (stream : List Event)
    → stream_text (append id (token new) stream) ≡ stream_text stream ++ new
unfolding stream_text append
stream_text-token id new [] = append-nil new
stream_text-token id new (e ∷ es) =
    ap (λ k. token_text e.content ++ k) (stream_text-token id new es)
    ∙ sym (append_assoc (token_text e.content) (stream_text es) new)

join-snoc :
    (produced : List Text) (new : Text) → join (produced ++ (new ∷ [])) ≡ join produced ++ new
unfolding join
join-snoc [] new = append-nil new
join-snoc (t ∷ ts) new = ap (λ k. t ++ k) (join-snoc ts new) ∙ sym (append_assoc t (join ts) new)

ends-token :
    (id : EntryId) (new : Text) (stream : List Event)
    → ends (append id (token new) stream) ≡ ends stream
unfolding append
ends-token id new [] = refl
ends-token id new (e ∷ es) = ap (λ b. is_terminal e.content || b) (ends-token id new es)

-- How a relay leaves its stream: no end in it, and a response that is its text.
pub RelaysWell : Relayed → Type 0
RelaysWell r =
    (is_streaming_status r.outcome.status ≡ false)
    × (ends r.stream ≡ false)
    × (is_completed_status r.outcome.status ≡ true
        → r.outcome.response ≡ some (stream_text r.stream))

check-ended :
    (deadline now : ℕ) (control : Control) (outcome : Outcome)
    → check deadline now control ≡ some outcome
    → (is_streaming_status outcome.status ≡ false) × (is_completed_status outcome.status ≡ false)
unfolding check
check-ended deadline now (flags true reading) outcome h = ground arith
check-ended deadline now (flags false false) outcome h = ground arith
check-ended deadline now (flags false true) outcome h = ground arith
check-ended deadline now control_raises outcome h = ground arith
check-ended deadline now control_shut_down outcome h = ground arith

take_item-ended :
    (item : Item) (produced : List Text) (stream : List Event) (r : Relayed)
    → stream_text stream ≡ join produced
    → ends stream ≡ false
    → take_item item produced stream ≡ ends_with r
    → RelaysWell r
unfolding take_item RelaysWell
take_item-ended timed_out produced stream r same going h = absurd (ground arith)
take_item-ended (usage used) produced stream r same going h = ground arith
take_item-ended (provider_refused code) produced stream r same going h = ground arith
take_item-ended provider_raised produced stream r same going h = ground arith
take_item-ended shut_down produced stream r same going h = ground arith
take_item-ended (text new (some id)) produced stream r same going h = absurd (ground arith)
take_item-ended (text new none) produced stream r same going h = ground arith

take_item-goes_on :
    (item : Item) (produced produced' : List Text) (stream stream' : List Event)
    → stream_text stream ≡ join produced
    → ends stream ≡ false
    → take_item item produced stream ≡ goes_on produced' stream'
    → (stream_text stream' ≡ join produced') × (ends stream' ≡ false)
unfolding take_item
take_item-goes_on timed_out produced produced' stream stream' same going h = ground arith
take_item-goes_on (usage used) produced produced' stream stream' same going h =
    absurd (ground arith)
take_item-goes_on (provider_refused code) produced produced' stream stream' same going h =
    absurd (ground arith)
take_item-goes_on provider_raised produced produced' stream stream' same going h =
    absurd (ground arith)
take_item-goes_on shut_down produced produced' stream stream' same going h = absurd (ground arith)
take_item-goes_on (text new none) produced produced' stream stream' same going h =
    absurd (ground arith)
take_item-goes_on (text new (some id)) produced produced' stream stream' same going h =
    ground
      (arith, stream_text-token id new stream, join-snoc produced new, ends-token id new stream)

stopped_well :
    (deadline : ℕ) (t : Tick) (outcome : Outcome) (produced : List Text) (stream : List Event)
    → ends stream ≡ false
    → check deadline t.now t.control ≡ some outcome
    → RelaysWell (record { outcome = outcome; produced = produced; stream = stream })
unfolding RelaysWell
stopped_well deadline t outcome produced stream going asked =
    ground (arith, check-ended deadline t.now t.control outcome asked)

relay-RelaysWell :
    (deadline interval : ℕ) (ticks : List Tick) (next_check : ℕ) (produced : List Text)
    (stream : List Event) (r : Relayed)
    → stream_text stream ≡ join produced
    → ends stream ≡ false
    → relay deadline interval ticks next_check produced stream ≡ some r
    → RelaysWell r
unfolding RelaysWell relay
relay-RelaysWell deadline interval [] next_check produced stream r same going run =
    absurd (ground arith)
relay-RelaysWell deadline interval (t ∷ ts) next_check produced stream r same going run =
    elim (relay-Ends deadline interval t ts next_check produced stream) [
      | inl (outcome, e, out) ↦
          let stopped_with : Relayed = record {
            outcome = outcome;
            produced = produced;
            stream = stream;
          } in
          let is_it : stopped_with ≡ r = ground arith in
          let asked : check deadline t.now t.control ≡ some outcome = ground arith in
          subst RelaysWell is_it (stopped_well deadline t outcome produced stream going asked)
      | inr (inl (r', e, out)) ↦
          let is_it : r' ≡ r = ground arith in
          subst RelaysWell is_it (take_item-ended t.item produced stream r' same going e)
      | inr (inr (produced', stream', e, f, out)) ↦
          let (same', going') =
            take_item-goes_on t.item produced produced' stream stream' same going f in
          relay-RelaysWell deadline interval ts (later interval t next_check) produced' stream' r
            same' going' (sym out ∙ run)
    ]

-- The event that the runner publishes is the one that a reader gets from the row it wrote.
terminal_event-row :
    (at : Ending) (produced : List Text) (outcome : Outcome) (q : AiQuery)
    → terminal_event (accounted at produced outcome)
      ≡ terminal_from_row (ended_as (accounted at produced outcome) at.now q)
unfolding terminal_event terminal_from_row accounted
terminal_event-row at produced outcome q = ground arith

-- A run that its loop ended, on a row that is still streaming, with the database and Redis up. The
-- stream gets exactly one terminal event, after all others, and it is the event that a later reader
-- gets from the row. The row has ended; and if it is completed, its response is the text of the
-- token events that the readers were sent.
pub run_published :
    (deadline interval : ℕ) (ticks : List Tick) (r : Relayed) (at : Ending) (id : ℕ) (q : AiQuery)
    (queries : Dict AiQuery) (entry_id : EntryId)
    → relay deadline interval ticks 0 [] [] ≡ some r
    → at.db_answers ≡ true
    → at.entry_id ≡ some entry_id
    → lookup id queries ≡ some q
    → is_streaming q ≡ true
    → (row : AiQuery) × (lookup id (finish_run at id r queries).0 ≡ some row)
      × (is_streaming row ≡ false)
      × ((finish_run at id r queries).1 ≡ append entry_id (terminal_from_row row) r.stream)
      × (ends r.stream ≡ false)
      × (is_completed_status row.status ≡ true → row.response ≡ some (stream_text r.stream))
unfolding finish_run publish finish RelaysWell accounted stream_text
run_published deadline interval ticks r at id q queries entry_id run up there found live =
    let (ended, going, whole) = relay-RelaysWell deadline interval ticks 0 [] [] r refl refl run in
    let outcome = accounted at r.produced r.outcome in
    let row = ended_as outcome at.now q in
    (
      row,
      ground (arith, lookup-insert id id row queries),
      ended,
      ground (arith, terminal_event-row at r.produced r.outcome q),
      going,
      whole,
    )
