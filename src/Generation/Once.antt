-- ===== src/Generation/Once.antt =====
-- `follow` of api/services/ai_stream.py: what a reader is sent across reconnections.
use synapse_canvas.Base.{
  ℕ, ◌≤◌, true, ◌≡◌, refl, sym, ap, subst, ◌∙◌, false, List, [], ◌∷◌, ◌++◌, take, length, arith,
  Bool-cases, inl, inr, append_assoc,
}
use synapse_canvas.Queries.{AiQuery, is_streaming}
use synapse_canvas.Generation.{
  EntryId, Event, is_terminal, upto, ends, last_id, Round, last_words, follow_ended, follow,
  terminal_from_row,
}
use synapse_canvas.Generation.Whole.{ReadsAll, follow-whole}
use synapse_canvas.Generation.Resume.{
  Ascending, Prefix, events_of, rest_after, rest_after-last_id, last_words-Prefix,
  follow_live-Prefix, upto-goes_on,
}

take-length : {A : Type 0} (xs : List A) → take (length xs) xs ≡ xs
take-length [] = refl
take-length (x ∷ xs) = ap (◌∷◌ x) (take-length xs)

follow-Prefix :
    (stream : List Event) (every : ℕ) (query : AiQuery) (rounds : List Round) (after : EntryId)
    (now : ℕ)
    → Ascending stream
    → Prefix
        (events_of (follow stream every query rounds after now).0)
        (upto (rest_after stream after))
unfolding follow follow_ended
follow-Prefix stream every query rounds after now asc = elim (Bool-cases (is_streaming query)) [
  | inl e ↦ rw e (follow_live-Prefix stream every rounds after now asc)
  | inr e ↦ rw e (
      subst
        (λ s.
          Prefix (events_of (last_words s after (terminal_from_row query)))
            (upto (rest_after stream after)))
        (take-length stream)
        (last_words-Prefix stream (length stream) after (terminal_from_row query)))
]

-- Events before the first terminal one start the list itself.
upto-Prefix :
    (seen more all : List Event) → seen ++ more ≡ upto all → ends seen ≡ false → Prefix seen all
unfolding upto
upto-Prefix [] more all h open_end = (all, refl)
upto-Prefix (e ∷ es) more [] h open_end = absurd (ground arith)
upto-Prefix (e ∷ es) more (y ∷ ys) h open_end = elim (Bool-cases (is_terminal y.content)) [
  | inl f ↦ absurd (ground arith)
  | inr f ↦
      let (rest, same) = upto-Prefix es more ys (ground arith) (ground arith) in
      (rest, ground arith)
]

-- A reader was sent some events and no end, and then lost its connection, maybe with some of them
-- unseen. It comes back with the id of the last event that it saw, at any later state of the query,
-- on a stream whose ids ascend. What it saw and what it is sent now begin, together, the events of
-- the stream from where it began up to the first end of the generation, each once and in order; and
-- they are all of these events as soon as the reader is ended, if no more than 500 came after what
-- it saw and the last read of a round, made when the runner is gone, finds the whole stream.
pub resumed_once :
    (stream : List Event) (every : ℕ) (query query' : AiQuery) (rounds rounds' : List Round)
    (after : EntryId) (now now' : ℕ) (seen unseen : List Event)
    → Ascending stream
    → events_of (follow stream every query rounds after now).0 ≡ seen ++ unseen
    → ends seen ≡ false
    → let again = follow stream every query' rounds' (last_id after seen) now' in
      Prefix (seen ++ events_of again.0) (upto (rest_after stream after))
      × (ReadsAll stream rounds'
          → length (rest_after stream (last_id after seen)) ≤ 500
          → again.1 ≡ true
          → seen ++ events_of again.0 ≡ upto (rest_after stream after))
resumed_once stream every query query' rounds rounds' after now now' seen unseen asc first going =
    let (tail, whole) = follow-Prefix stream every query rounds after now asc in
    let split = sym (append_assoc seen unseen tail) ∙ (ap (λ k. k ++ tail) (sym first) ∙ whole) in
    let (rest, same) = upto-Prefix seen (unseen ++ tail) (rest_after stream after) split going in
    let next = rest_after-last_id stream after seen rest asc same in
    let joined = sym (upto-goes_on seen rest going) ∙ ap upto same in
    let (end, last) = follow-Prefix stream every query' rounds' (last_id after seen) now' asc in
    let again = events_of (follow stream every query' rounds' (last_id after seen) now').0 in
    (
      (end, append_assoc seen again end ∙ (ap (λ k. seen ++ k) (last ∙ ap upto next) ∙ joined)),
      λ reads few ended.
          ap (λ k. seen ++ k)
            (follow-whole stream every query' rounds' (last_id after seen) now' asc reads few ended
              ∙ ap upto next)
          ∙ joined,
    )
