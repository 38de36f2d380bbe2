-- ===== src/Generation/Whole.antt =====
-- `follow` of api/services/ai_stream.py: when a reader has been sent all that there is.
use synapse_canvas.Base.{
  ℕ, zero, suc, ◌+◌, ◌≤◌, ◌≡◌, refl, sym, ap, ◌∙◌, true, List, [], ◌∷◌, ◌++◌, leb, if◌then◌else◌,
  take, length, arith, All, Bool-cases, inl, inr, append-nil, length-append,
}
use synapse_canvas.Queries.{AiQuery, is_streaming}
use synapse_canvas.Generation.{
  EntryId, EventData, Event, from_row, read, upto, ends, entries, last_id, Round, last_words,
  is_empty, follow_live, follow_ended, follow, terminal_from_row,
}
use synapse_canvas.Generation.Resume.{
  Ascending, events_of, events_of-append, events_of-entries, events_of-signs, rest_after,
  rest_after-last_id, read-Prefix, upto-ended, upto-goes_on,
}

take-all : {A : Type 0} (n : ℕ) (xs : List A) → length xs ≤ n → take n xs ≡ xs
take-all zero [] h = refl
take-all (suc n) [] h = refl
take-all zero (x ∷ xs) h = absurd (omega arith)
take-all (suc n) (x ∷ xs) h = ap (◌∷◌ x) (take-all n xs (omega arith))

-- One read takes in the rest of the stream.
pub last_words-whole :
    (stream : List Event) (after : EntryId) (ending : EventData)
    → length (rest_after stream after) ≤ 500
    → events_of (last_words stream after ending) ≡ upto (rest_after stream after)
unfolding last_words events_of read
last_words-whole stream after ending few =
    let late = rest_after stream after in
    let all = take-all 500 late few in
    elim (Bool-cases (ends late)) [
      | inl e ↦ rw (all, e) (events_of-entries (upto late))
      | inr e ↦
          rw (all, e)
            (events_of-append (entries late) (from_row ending ∷ [])
              ∙ (ap (λ k. k ++ []) (events_of-entries late)
                  ∙ (sym (upto-goes_on late [] e) ∙ ap upto (append-nil late))))
    ]

-- The last read of each round finds all that there is.
abbrev pub ReadsAll : List Event → List Round → Type 0
ReadsAll stream rounds = All (λ r. length stream ≤ r.late_count) rounds

follow_live-whole :
    (stream : List Event) (every : ℕ) (rounds : List Round) (after : EntryId) (last_sent : ℕ)
    → Ascending stream
    → ReadsAll stream rounds
    → length (rest_after stream after) ≤ 500
    → (follow_live stream every rounds after last_sent).1 ≡ true
    → events_of (follow_live stream every rounds after last_sent).0 ≡ upto (rest_after stream after)
unfolding follow_live
follow_live-whole stream every [] after last_sent asc reads few ended = absurd (ground arith)
follow_live-whole stream every (r ∷ rs) after last_sent asc (read_all, reads) few ended =
    let batch = read (take r.count stream) after in
    let due = leb (last_sent + every) r.now in
    let (rest, same) = read-Prefix r.count stream after in
    let idle = if due then r.now else last_sent in
    elim (Bool-cases (ends batch)) [
      | inl e ↦
          rw e (events_of-entries (upto batch) ∙ (sym (upto-ended batch rest e) ∙ ap upto same))
      | inr e ↦ elim (Bool-cases (is_empty batch)) [
        | inr f ↦
            let next = rest_after-last_id stream after batch rest asc same in
            let more = follow_live stream every rs (last_id after batch) r.now in
            let fewer : length (rest_after stream (last_id after batch)) ≤ 500 =
              omega (arith, ap length next, ap length same, length-append batch rest) in
            let tail =
              follow_live-whole stream every rs (last_id after batch) r.now asc reads fewer
                (rw (e, f) at ended) in
            rw e (
              rw f (
                events_of-append (entries batch) more.0
                ∙ (ap (λ k. k ++ events_of more.0) (events_of-entries batch)
                    ∙ (ap (λ k. batch ++ k) (tail ∙ ap upto next)
                        ∙ (sym (upto-goes_on batch rest e) ∙ ap upto same)))))
        | inl f ↦ elim (Bool-cases r.alive) [
          | inl g ↦ rw e (
              rw f (
                rw g (
                  events_of-signs due (follow_live stream every rs after idle).0
                  ∙ follow_live-whole stream every rs after idle asc reads few
                      (rw (e, f, g) at ended))))
          | inr g ↦
              let whole = take-all r.late_count stream read_all in
              rw e (
                rw f (
                  rw g (
                    events_of-signs due (last_words (take r.late_count stream) after r.abandoned)
                    ∙ rw whole (last_words-whole stream after r.abandoned few))))
        ]
      ]
    ]

pub follow-whole :
    (stream : List Event) (every : ℕ) (query : AiQuery) (rounds : List Round) (after : EntryId)
    (now : ℕ)
    → Ascending stream
    → ReadsAll stream rounds
    → length (rest_after stream after) ≤ 500
    → (follow stream every query rounds after now).1 ≡ true
    → events_of (follow stream every query rounds after now).0 ≡ upto (rest_after stream after)
unfolding follow follow_ended
follow-whole stream every query rounds after now asc reads few ended =
    elim (Bool-cases (is_streaming query)) [
      | inl e ↦ rw e (follow_live-whole stream every rounds after now asc reads few (rw e at ended))
      | inr e ↦ rw e (last_words-whole stream after (terminal_from_row query) few)
    ]
