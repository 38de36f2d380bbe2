-- ===== src/Generation/Resume.antt =====
-- `follow` of api/services/ai_stream.py: which entries of the stream a reader is sent.
use synapse_canvas.Base.{
  ℕ, zero, suc, ◌+◌, ◌≡◌, refl, sym, ap, subst, ◌∙◌, Bool, true, false, List, [], ◌∷◌, ◌++◌, leb,
  if◌then◌else◌, keep, take, drop, arith, All, Bool-cases, inl, inr, append-nil, append_assoc,
  take-append-drop,
}
use synapse_canvas.Generation.{
  EntryId, EventData, Event, Sent, entry, from_row, keepalive, is_after, comes_after, read, upto,
  ends, entries, last_id, Round, last_words, is_empty, follow_live,
}

-- Redis gives ascending ids.
abbrev pub Ascending : List Event → Type 0
Ascending [] = Unit
Ascending (e ∷ es) = All (λ x. is_after e.id x.id ≡ true) es × Ascending es

-- `ys` starts with `xs`.
abbrev pub Prefix {ℓ} : {A : Type ℓ} → List A → List A → Type ℓ
Prefix {A = A} xs ys = (rest : List A) × (xs ++ rest ≡ ys)

-- The entries of the stream among what a reader is sent.
unfoldable pub events_of : List Sent → List Event
events_of [] = []
events_of (entry e ∷ xs) = e ∷ events_of xs
events_of (from_row _ ∷ xs) = events_of xs
events_of (keepalive ∷ xs) = events_of xs

pub events_of-append : (xs ys : List Sent) → events_of (xs ++ ys) ≡ events_of xs ++ events_of ys
unfolding events_of
events_of-append [] ys = refl
events_of-append (entry e ∷ xs) ys = ap (◌∷◌ e) (events_of-append xs ys)
events_of-append (from_row _ ∷ xs) ys = events_of-append xs ys
events_of-append (keepalive ∷ xs) ys = events_of-append xs ys

pub events_of-entries : (es : List Event) → events_of (entries es) ≡ es
unfolding events_of
events_of-entries [] = refl
events_of-entries (e ∷ es) = ap (◌∷◌ e) (events_of-entries es)

is_after_trans : (a b c : EntryId) → is_after a b ≡ true → is_after b c ≡ true → is_after a c ≡ true
is_after_trans a b c h k = ground arith

is_after_asym : (a b : EntryId) → is_after a b ≡ true → is_after b a ≡ false
is_after_asym a b h = ground arith

is_after_irrefl : (a : EntryId) → is_after a a ≡ false
is_after_irrefl a = ground arith

keep-take :
    {A : Type 0} (p : A → Bool) (n : ℕ) (xs : List A) → Prefix (keep p (take n xs)) (keep p xs)
keep-take p zero xs = (keep p xs, refl)
keep-take p (suc n) [] = ([], refl)
keep-take p (suc n) (x ∷ xs) =
    let (rest, same) = keep-take p n xs in
    elim (Bool-cases (p x)) [ inl e ↦ (rest, rw e (ap (◌∷◌ x) same)) | inr e ↦ (rest, rw e same) ]

pub read-Prefix :
    (n : ℕ) (stream : List Event) (after : EntryId)
    → Prefix (read (take n stream) after) (keep (comes_after after) stream)
unfolding read
read-Prefix n stream after =
    let (rest, same) = keep-take (comes_after after) n stream in
    let xs = keep (comes_after after) (take n stream) in
    (
      drop 500 xs ++ rest,
      sym (append_assoc (take 500 xs) (drop 500 xs) rest)
          ∙ (ap (λ k. k ++ rest) (take-append-drop 500 xs) ∙ same),
    )

All-keep : {A : Type 0} (P : A → Type 0) (p : A → Bool) (xs : List A) → All P xs → All P (keep p xs)
All-keep P p [] h = tt
All-keep P p (x ∷ xs) (h, hs) = elim (Bool-cases (p x)) [
  | inl e ↦ rw e (h, All-keep P p xs hs)
  | inr e ↦ rw e (All-keep P p xs hs)
]

Ascending-keep : (p : Event → Bool) (es : List Event) → Ascending es → Ascending (keep p es)
Ascending-keep p [] h = tt
Ascending-keep p (e ∷ es) (h, hs) = elim (Bool-cases (p e)) [
  | inl f ↦ rw f (All-keep (λ x. is_after e.id x.id ≡ true) p es h, Ascending-keep p es hs)
  | inr f ↦ rw f (Ascending-keep p es hs)
]

All-keep_self : {A : Type 0} (p : A → Bool) (xs : List A) → All (λ x. p x ≡ true) (keep p xs)
All-keep_self p [] = tt
All-keep_self p (x ∷ xs) = elim (Bool-cases (p x)) [
  | inl e ↦ rw e (e, All-keep_self p xs)
  | inr e ↦ rw e (All-keep_self p xs)
]

keep-All : {A : Type 0} (p : A → Bool) (xs : List A) → All (λ x. p x ≡ true) xs → keep p xs ≡ xs
keep-All p [] h = refl
keep-All p (x ∷ xs) (h, hs) = rw h (ap (◌∷◌ x) (keep-All p xs hs))

keep-later :
    (a l : EntryId) (es : List Event)
    → is_after a l ≡ true
    → keep (comes_after l) (keep (comes_after a) es) ≡ keep (comes_after l) es
keep-later a l [] h = refl
keep-later a l (e ∷ es) h = ground (arith, keep-later a l es h, is_after_trans a l e.id h)

last_id-All :
    (P : EntryId → Type 0) (e : Event) (es rest : List Event)
    → P e.id
    → All (λ x. P x.id) (es ++ rest)
    → P (last_id e.id es)
last_id-All P e [] rest h hs = h
last_id-All P e (x ∷ xs) rest h (k, ks) = last_id-All P x xs rest k ks

-- In an ascending list the events after the last of a prefix are the rest.
keep-last_id :
    (e : Event) (es rest : List Event)
    → Ascending (e ∷ (es ++ rest))
    → keep (comes_after (last_id e.id es)) (e ∷ (es ++ rest)) ≡ rest
keep-last_id e [] rest (h, hs) = rw (is_after_irrefl e.id) (keep-All (comes_after e.id) rest h)
keep-last_id e (x ∷ xs) rest ((k, ks), hs) =
    let below = last_id-All (λ i. is_after e.id i ≡ true) x xs rest k ks in
    rw (is_after_asym e.id (last_id x.id xs) below) (keep-last_id x xs rest hs)

pub upto-ended : (xs ys : List Event) → ends xs ≡ true → upto (xs ++ ys) ≡ upto xs
unfolding upto
upto-ended [] ys h = absurd (ground arith)
upto-ended (x ∷ xs) ys h = ground (arith, upto-ended xs ys)

pub upto-goes_on : (xs ys : List Event) → ends xs ≡ false → upto (xs ++ ys) ≡ xs ++ upto ys
unfolding upto
upto-goes_on [] ys h = refl
upto-goes_on (x ∷ xs) ys h = ground (arith, upto-goes_on xs ys)

-- What comes next in the stream after an id.
abbrev pub rest_after : List Event → EntryId → List Event
rest_after stream after = keep (comes_after after) stream

-- After the last event of what was read, the rest of the stream is what was not read.
pub rest_after-last_id :
    (stream : List Event) (after : EntryId) (seen rest : List Event)
    → Ascending stream
    → seen ++ rest ≡ rest_after stream after
    → rest_after stream (last_id after seen) ≡ rest
rest_after-last_id stream after [] rest asc same = sym same
rest_after-last_id stream after (e ∷ es) rest asc same =
    let all =
      subst (All (λ x. is_after after x.id ≡ true)) (sym same)
        (All-keep_self (comes_after after) stream) in
    let (first, others) = all in
    let last = last_id-All (λ i. is_after after i ≡ true) e es rest first others in
    let kept = subst Ascending (sym same) (Ascending-keep (comes_after after) stream asc) in
    sym (keep-later after (last_id e.id es) stream last)
    ∙ (ap (keep (comes_after (last_id e.id es))) (sym same) ∙ keep-last_id e es rest kept)

pub last_words-Prefix :
    (stream : List Event) (n : ℕ) (after : EntryId) (ending : EventData)
    → Prefix (events_of (last_words (take n stream) after ending)) (upto (rest_after stream after))
unfolding last_words events_of
last_words-Prefix stream n after ending =
    let late = read (take n stream) after in
    let (rest, same) = read-Prefix n stream after in
    elim (Bool-cases (ends late)) [
      | inl e ↦ (
        [],
        rw e (
            ap (λ k. k ++ []) (events_of-entries (upto late))
            ∙ (append-nil (upto late) ∙ (sym (upto-ended late rest e) ∙ ap upto same))),
      )
      | inr e ↦ (
        upto rest,
        rw e (
            ap (λ k. k ++ upto rest)
              (events_of-append (entries late) (from_row ending ∷ [])
                ∙ (append-nil (events_of (entries late)) ∙ events_of-entries late))
            ∙ (sym (upto-goes_on late rest e) ∙ ap upto same)),
      )
    ]

abbrev pub signs : Bool → List Sent
signs due = if due then keepalive ∷ [] else []

pub events_of-signs : (due : Bool) (xs : List Sent) → events_of (signs due ++ xs) ≡ events_of xs
unfolding events_of
events_of-signs true xs = refl
events_of-signs false xs = refl

-- What a reader of the loop is sent of the stream is the start of what comes next in it.
pub follow_live-Prefix :
    (stream : List Event) (every : ℕ) (rounds : List Round) (after : EntryId) (last_sent : ℕ)
    → Ascending stream
    → Prefix
        (events_of (follow_live stream every rounds after last_sent).0)
        (upto (rest_after stream after))
unfolding follow_live events_of
follow_live-Prefix stream every [] after last_sent asc = (upto (rest_after stream after), refl)
follow_live-Prefix stream every (r ∷ rs) after last_sent asc =
    let batch = read (take r.count stream) after in
    let due = leb (last_sent + every) r.now in
    let (rest, same) = read-Prefix r.count stream after in
    let idle = if due then r.now else last_sent in
    elim (Bool-cases (ends batch)) [
      | inl e ↦ (
        [],
        rw e (
            ap (λ k. k ++ []) (events_of-entries (upto batch))
            ∙ (append-nil (upto batch) ∙ (sym (upto-ended batch rest e) ∙ ap upto same))),
      )
      | inr e ↦ elim (Bool-cases (is_empty batch)) [
        | inr f ↦
            let next = rest_after-last_id stream after batch rest asc same in
            let (more, tail) = follow_live-Prefix stream every rs (last_id after batch) r.now asc in
            let sent = (follow_live stream every rs (last_id after batch) r.now).0 in
            (
              more,
              rw e (
                  rw f (
                    ap (λ k. k ++ more)
                      (events_of-append (entries batch) sent
                        ∙ ap (λ k. k ++ events_of sent) (events_of-entries batch))
                    ∙ (append_assoc batch (events_of sent) more
                        ∙ (ap (λ k. batch ++ k) (tail ∙ ap upto next)
                            ∙ (sym (upto-goes_on batch rest e) ∙ ap upto same))))),
            )
        | inl f ↦ elim (Bool-cases r.alive) [
          | inl g ↦
              let (more, tail) = follow_live-Prefix stream every rs after idle asc in
              let sent = (follow_live stream every rs after idle).0 in
              (more, rw e (rw f (rw g (ap (λ k. k ++ more) (events_of-signs due sent) ∙ tail))))
          | inr g ↦
              let (more, tail) = last_words-Prefix stream r.late_count after r.abandoned in
              let sent = last_words (take r.late_count stream) after r.abandoned in
              (more, rw e (rw f (rw g (ap (λ k. k ++ more) (events_of-signs due sent) ∙ tail))))
        ]
      ]
    ]
