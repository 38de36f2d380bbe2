-- ===== src/Generation/Deadline.antt =====
-- `_relay` of api/services/ai_runner.py: its rounds, and its deadline.
use synapse_canvas.Base.{
  ℕ, ◌+◌, ◌≤◌, ◌≡◌, refl, ap, ◌∙◌, true, false, Option, none, some, List, [], ◌∷◌, leb,
  if◌then◌else◌, any, is_some, arith, Option-cases, ◌⊎◌, inl, inr,
}
use synapse_canvas.ProseMirror.Utf16.{Text}
use synapse_canvas.Queries.{Outcome}
use synapse_canvas.Generation.{Event}
use synapse_canvas.Generation.Runner.{
  Control, flags, control_raises, control_shut_down, Tick, Relayed, check, Step, ends_with, goes_on,
  take_item, relay,
}

check-deadline :
    (deadline now : ℕ) (control : Control)
    → deadline ≤ now
    → is_some (check deadline now control) ≡ true
unfolding check
check-deadline deadline now (flags true reading) h = refl
check-deadline deadline now (flags false false) h = refl
check-deadline deadline now (flags false true) h = ground arith
check-deadline deadline now control_raises h = refl
check-deadline deadline now control_shut_down h = refl

Step-cases :
    (s : Step)
    → ((r : Relayed) × (s ≡ ends_with r))
      ⊎ ((produced : List Text) × (stream : List Event) × (s ≡ goes_on produced stream))
Step-cases (ends_with r) = inl (r, refl)
Step-cases (goes_on produced stream) = inr (produced, stream, refl)

abbrev checked : ℕ → Tick → ℕ → Option Outcome
checked deadline t next_check =
    if leb next_check t.now then check deadline t.now t.control else none

abbrev pub later : ℕ → Tick → ℕ → ℕ
later interval t next_check = if leb next_check t.now then t.now + interval else next_check

-- The three ways of a round.
pub relay-Ends :
    (deadline interval : ℕ) (t : Tick) (ts : List Tick) (next_check : ℕ) (produced : List Text)
    (stream : List Event)
    → ((outcome : Outcome) × (checked deadline t next_check ≡ some outcome)
        × (relay deadline interval (t ∷ ts) next_check produced stream
            ≡ some (record { outcome = outcome; produced = produced; stream = stream })))
      ⊎ ((r : Relayed) × (take_item t.item produced stream ≡ ends_with r)
          × (relay deadline interval (t ∷ ts) next_check produced stream ≡ some r))
      ⊎ ((produced' : List Text) × (stream' : List Event) × (checked deadline t next_check ≡ none)
          × (take_item t.item produced stream ≡ goes_on produced' stream')
          × (relay deadline interval (t ∷ ts) next_check produced stream
              ≡ relay deadline interval ts (later interval t next_check) produced' stream'))
unfolding relay
relay-Ends deadline interval t ts next_check produced stream =
    elim (Option-cases (checked deadline t next_check)) [
      | inr (outcome, e) ↦ inl (outcome, e, ground arith)
      | inl e ↦ elim (Step-cases (take_item t.item produced stream)) [
        | inl (relayed, f) ↦ inr (inl (relayed, f, ground arith))
        | inr (produced', stream', f) ↦ inr (inr (produced', stream', e, f, ground arith))
      ]
    ]

-- The loop has ended by the first round that starts an interval or more after the deadline,
-- whatever its provider, its readers and Redis do before.
pub relay_ends :
    (deadline interval : ℕ) (ticks : List Tick) (next_check : ℕ) (produced : List Text)
    (stream : List Event)
    → next_check ≤ deadline + interval
    → any (λ t. leb (deadline + interval) t.now) ticks ≡ true
    → is_some (relay deadline interval ticks next_check produced stream) ≡ true
relay_ends deadline interval [] next_check produced stream h late = absurd (ground arith)
relay_ends deadline interval (t ∷ ts) next_check produced stream h late =
    elim (relay-Ends deadline interval t ts next_check produced stream) [
      | inl (outcome, e, run) ↦ ap is_some run
      | inr (inl (r, e, run)) ↦ ap is_some run
      | inr (inr (produced', stream', e, f, run)) ↦
          ap is_some run
          ∙ relay_ends deadline interval ts (later interval t next_check) produced' stream'
              (ground (arith, check-deadline deadline t.now t.control))
              (ground (arith, check-deadline deadline t.now t.control))
    ]
