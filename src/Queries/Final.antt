-- ===== src/Queries/Final.antt =====
-- api/services/ai_queries.py: the row of a query that has ended.
use synapse_canvas.Base.{ℕ, ◌≡◌, refl, ap, inl, inr, arith, true, false, some}
use synapse_canvas.Base.Dict.{Dict, lookup, lookup-insert}
use synapse_canvas.Queries.{
  AiQuery, Settings, Outcome, is_streaming, expire_abandoned, ended_as, finish, is_streaming_status,
}
use synapse_canvas.Queries.Rows.{
  lookup-expire_abandoned, admit_query-Ends, Event, Reach, finish-Ends, admits, answers, finishes,
  begins, continues,
}

Event-final :
    {settings : Settings} {qs qs' : Dict AiQuery} (id : ℕ) (q : AiQuery)
    → Event settings qs qs'
    → lookup id qs ≡ some q
    → is_streaming q ≡ false
    → lookup id qs' ≡ some q
Event-final {settings} id q (admits qs now k new estimated fresh) at ended =
    let kept = expire_abandoned qs settings new.workspace_id now in
    elim (admit_query-Ends qs settings now k new estimated) [
      | inl (ok, out) ↦ rw out (
          ground (
            arith,
            lookup-insert id k new kept,
            lookup-expire_abandoned id settings new.workspace_id now qs,
            ap (λ i. lookup i qs) {x = id} {y = k},
          ))
      | inr (n, inl out) ↦ rw out at
      | inr (n, inr out) ↦ rw out at
    ]
Event-final id q (answers qs k new fresh other) at ended =
    ground (arith, lookup-insert id k new qs, ap (λ i. lookup i qs) {x = id} {y = k})
Event-final id q (finishes qs k outcome now other) at ended = elim (finish-Ends qs k outcome now) [
  | inl out ↦ rw out at
  | inr (r, there, runs, out) ↦ rw out (
      ground (
        arith,
        lookup-insert id k (ended_as outcome now r) qs,
        ap (λ i. lookup i qs) {x = id} {y = k},
      ))
]

Reach-final :
    {settings : Settings} {start qs : Dict AiQuery} (id : ℕ) (q : AiQuery)
    → Reach settings start qs
    → lookup id start ≡ some q
    → is_streaming q ≡ false
    → lookup id qs ≡ some q
Reach-final id q begins at ended = at
Reach-final id q (continues r e) at ended = Event-final id q e (Reach-final id q r at ended) ended

finish-ended :
    (qs : Dict AiQuery) (id : ℕ) (q : AiQuery) (outcome : Outcome) (now : ℕ)
    → lookup id qs ≡ some q
    → is_streaming q ≡ false
    → finish qs id outcome now ≡ (qs, false)
unfolding finish
finish-ended qs id q outcome now at ended = rw (at, finish) (rw ended refl)

-- A generation ends once: after a `finish` that returns true, with an outcome that is not
-- streaming, and whatever happens to the table then, the row still has that outcome, and a second
-- `finish` returns false and changes nothing.
pub finish_once :
    {settings : Settings} {later : Dict AiQuery} (qs : Dict AiQuery) (id : ℕ)
    (outcome outcome' : Outcome) (now now' : ℕ)
    → is_streaming_status outcome.status ≡ false
    → (finish qs id outcome now).1 ≡ true
    → Reach settings (finish qs id outcome now).0 later
    → ((q : AiQuery) × (lookup id qs ≡ some q) × (lookup id later ≡ some (ended_as outcome now q)))
      × (finish later id outcome' now' ≡ (later, false))
finish_once {settings} {later} qs id outcome outcome' now now' ended done r =
    elim (finish-Ends qs id outcome now) [
      | inl out ↦ cc (ap (λ o. o.1) out)
      | inr (q, at, runs, out) ↦
          let row = ended_as outcome now q in
          let stored : lookup id (finish qs id outcome now).0 ≡ some row =
            rw out (ground (arith, lookup-insert id id row qs)) in
          let final = Reach-final id row r stored ended in
          ((q, at, final), finish-ended later id row outcome' now' final ended)
    ]
