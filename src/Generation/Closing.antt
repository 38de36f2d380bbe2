-- ===== src/Generation/Closing.antt =====
-- `follow` of api/services/ai_stream.py: the end of what a reader is sent.
use synapse_canvas.Base.{
  ℕ, ◌+◌, ◌≤◌, ◌<◌, ◌≡◌, refl, ap, Bool, true, false, not, ◌&&◌, ◌||◌, List, [], ◌∷◌, ◌++◌, leb,
  if◌then◌else◌, take, length, arith, All, Bool-cases, Option-cases, inl, inr, length-append,
}
use synapse_canvas.Base.Dict.{Dict, lookup}
use synapse_canvas.Queries.{AiQuery, is_streaming, finish}
use synapse_canvas.Generation.{
  EntryId, EventData, Event, Sent, entry, from_row, keepalive, is_terminal, read, upto, ends,
  entries, last_id, Round, last_words, is_empty, follow_live, follow_ended, follow,
  terminal_from_row, abandon, interrupted,
}
use synapse_canvas.Generation.Resume.{Ascending, rest_after, rest_after-last_id, signs, read-Prefix}

abbrev pub is_end : Sent → Bool
is_end (entry e) = is_terminal e.content
is_end (from_row content) = is_terminal content
is_end keepalive = false

abbrev pub has_end : List Sent → Bool
has_end [] = false
has_end (x ∷ xs) = is_end x || has_end xs

-- One end, the last thing sent.
abbrev pub closes : List Sent → Bool
closes [] = false
closes (x ∷ []) = is_end x
closes (x ∷ y ∷ xs) = not (is_end x) && closes (y ∷ xs)

closes-cons :
    (x : Sent) (xs : List Sent) → is_end x ≡ false → closes xs ≡ true → closes (x ∷ xs) ≡ true
closes-cons x [] h k = absurd (ground arith)
closes-cons x (y ∷ ys) h k = ground arith

closes-append :
    (xs ys : List Sent) → has_end xs ≡ false → closes ys ≡ true → closes (xs ++ ys) ≡ true
closes-append [] ys h k = k
closes-append (x ∷ xs) ys h k =
    closes-cons x (xs ++ ys) (ground arith) (closes-append xs ys (ground arith) k)

has_end-append :
    (xs ys : List Sent) → has_end xs ≡ false → has_end ys ≡ false → has_end (xs ++ ys) ≡ false
has_end-append [] ys h k = k
has_end-append (x ∷ xs) ys h k = ground (arith, has_end-append xs ys)

has_end-entries : (es : List Event) → ends es ≡ false → has_end (entries es) ≡ false
has_end-entries [] h = refl
has_end-entries (e ∷ es) h = ground (arith, has_end-entries es)

closes-upto : (es : List Event) → ends es ≡ true → closes (entries (upto es)) ≡ true
unfolding upto
closes-upto [] h = absurd (ground arith)
closes-upto (e ∷ es) h = elim (Bool-cases (is_terminal e.content)) [
  | inl f ↦ rw f f
  | inr f ↦ rw f (closes-cons (entry e) (entries (upto es)) f (closes-upto es (ground arith)))
]

has_end-signs : (due : Bool) → has_end (signs due) ≡ false
has_end-signs true = refl
has_end-signs false = refl

closes-last_words :
    (stream : List Event) (after : EntryId) (ending : EventData)
    → is_terminal ending ≡ true
    → closes (last_words stream after ending) ≡ true
unfolding last_words
closes-last_words stream after ending h = elim (Bool-cases (ends (read stream after))) [
  | inl e ↦ rw e (closes-upto (read stream after) e)
  | inr e ↦ rw e (
      closes-append (entries (read stream after)) (from_row ending ∷ [])
        (has_end-entries (read stream after) e) h)
]

is_terminal-terminal_from_row : (query : AiQuery) → is_terminal (terminal_from_row query) ≡ true
unfolding terminal_from_row
is_terminal-terminal_from_row query = ground arith

pub is_terminal-abandon :
    (queries : Dict AiQuery) (id now : ℕ) → is_terminal (abandon queries id now).1 ≡ true
unfolding abandon
is_terminal-abandon queries id now =
    elim (Option-cases (lookup id (finish queries id interrupted now).0)) [
      | inl e ↦ ground arith
      | inr (query, e) ↦ ground (arith, is_terminal-terminal_from_row query)
    ]

-- What `_abandon` gives in the rounds is an end.
abbrev pub AbandonsWell : List Round → Type 0
AbandonsWell rounds = All (λ r. is_terminal r.abandoned ≡ true) rounds

-- An ended reader got one end, and one that is not ended got none.
abbrev Closed : List Sent × Bool → Type 0
Closed (sent, true) = closes sent ≡ true
Closed (sent, false) = has_end sent ≡ false

Closed-after :
    (xs : List Sent) (r : List Sent × Bool)
    → has_end xs ≡ false
    → Closed r
    → Closed (xs ++ r.0, r.1)
Closed-after xs (sent, true) h c = closes-append xs sent h c
Closed-after xs (sent, false) h c = has_end-append xs sent h c

follow_live-Closed :
    (stream : List Event) (every : ℕ) (rounds : List Round) (after : EntryId) (last_sent : ℕ)
    → AbandonsWell rounds
    → Closed (follow_live stream every rounds after last_sent)
unfolding follow_live
follow_live-Closed stream every [] after last_sent h = refl
follow_live-Closed stream every (r ∷ rs) after last_sent (h, hs) =
    let batch = read (take r.count stream) after in
    let due = leb (last_sent + every) r.now in
    let idle = if due then r.now else last_sent in
    elim (Bool-cases (ends batch)) [
      | inl e ↦ rw e (closes-upto batch e)
      | inr e ↦ elim (Bool-cases (is_empty batch)) [
        | inr f ↦ rw e (
            rw f (
              Closed-after (entries batch) (follow_live stream every rs (last_id after batch) r.now)
                (has_end-entries batch e)
                (follow_live-Closed stream every rs (last_id after batch) r.now hs)))
        | inl f ↦ elim (Bool-cases r.alive) [
          | inl g ↦ rw e (
              rw f (
                rw g (
                  Closed-after (signs due) (follow_live stream every rs after idle)
                    (has_end-signs due) (follow_live-Closed stream every rs after idle hs))))
          | inr g ↦ rw e (
              rw f (
                rw g (
                  closes-append (signs due)
                    (last_words (take r.late_count stream) after r.abandoned) (has_end-signs due)
                    (closes-last_words (take r.late_count stream) after r.abandoned h))))
        ]
      ]
    ]

Closed-true : (r : List Sent × Bool) → Closed r → r.1 ≡ true → closes r.0 ≡ true
Closed-true (sent, true) c h = c
Closed-true (sent, false) c h = absurd (ground arith)

follow-Closed :
    (stream : List Event) (every : ℕ) (query : AiQuery) (rounds : List Round) (after : EntryId)
    (now : ℕ)
    → AbandonsWell rounds
    → Closed (follow stream every query rounds after now)
unfolding follow follow_ended
follow-Closed stream every query rounds after now h = elim (Bool-cases (is_streaming query)) [
  | inl e ↦ rw e (follow_live-Closed stream every rounds after now h)
  | inr e ↦ rw e (
      closes-last_words stream after (terminal_from_row query)
        (is_terminal-terminal_from_row query))
]

pos-length : (es : List Event) → is_empty es ≡ false → 1 ≤ length es
pos-length [] h = absurd (ground arith)
pos-length (e ∷ es) h = omega arith

follow_live-ends :
    (stream : List Event) (every : ℕ) (rounds : List Round) (after : EntryId) (last_sent : ℕ)
    → Ascending stream
    → All (λ r. r.alive ≡ false) rounds
    → length (rest_after stream after) < length rounds
    → (follow_live stream every rounds after last_sent).1 ≡ true
unfolding follow_live
follow_live-ends stream every [] after last_sent asc dead h = absurd (omega arith)
follow_live-ends stream every (r ∷ rs) after last_sent asc (d, dead) h =
    let batch = read (take r.count stream) after in
    let (rest, same) = read-Prefix r.count stream after in
    elim (Bool-cases (ends batch)) [
      | inl e ↦ rw e refl
      | inr e ↦ elim (Bool-cases (is_empty batch)) [
        | inl f ↦ rw e (rw f (rw d refl))
        | inr f ↦
            let next = rest_after-last_id stream after batch rest asc same in
            let shorter : length (rest_after stream (last_id after batch)) < length rs = omega (
              arith,
              ap length next,
              ap length same,
              length-append batch rest,
              pos-length batch f,
            ) in
            rw e
              (rw f (follow_live-ends stream every rs (last_id after batch) r.now asc dead shorter))
      ]
    ]

-- A reader whose runner is dead is ended: in as many rounds as there are events left and one more,
-- whatever part of the stream each round finds. It is sent exactly one terminal event, and nothing
-- after it. So is a reader of a query that has ended, at once.
pub follow-closes :
    (stream : List Event) (every : ℕ) (query : AiQuery) (rounds : List Round) (after : EntryId)
    (now : ℕ)
    → Ascending stream
    → AbandonsWell rounds
    → All (λ r. r.alive ≡ false) rounds
    → length (rest_after stream after) < length rounds
    → ((follow stream every query rounds after now).1 ≡ true)
      × (closes (follow stream every query rounds after now).0 ≡ true)
unfolding follow
follow-closes stream every query rounds after now asc well dead h = (
  ended,
  Closed-true (follow stream every query rounds after now)
      (follow-Closed stream every query rounds after now well) ended,
)
  where
    ended : (follow stream every query rounds after now).1 ≡ true
    ended = elim (Bool-cases (is_streaming query)) [
      | inl e ↦ rw e (follow_live-ends stream every rounds after now asc dead h)
      | inr e ↦ rw e refl
    ]
