-- ===== src/Retrieval/Attempts.antt =====
-- `embed` of api/services/embedding_usage.py: which requests are retried, and how a call ends.
use synapse_canvas.Base.{
  ℕ, zero, suc, ◌+◌, ◌≤◌, ◌<◌, ◌≡◌, ◌≢◌, refl, ◌∙◌, subst, Bool, true, false, not, ◌&&◌, ◌||◌, List,
  ltb, leb, ◌==◌, length, arith, Bool-cases, ◌⊎◌, inl, inr,
}
use synapse_canvas.Retrieval.Requests.{
  Provider, Limits, Call, Reply, answers, raises, Result, embedded, limit_reached, raised,
  EmbeddingRequest, requests_today, record_request, Embedding, embed_from, embed, WithinDays,
  Reply-cases, embed_from-Bounded,
}

-- The requests from `first` on, up to `stop`, failed for a while only.
abbrev pub AreRetried : (ℕ → Reply) → ℕ → ℕ → Type 0
AreRetried reply first stop = (i : ℕ) → first ≤ i → i < stop → reply i ≡ raises true false

-- The result is what the provider made of request `last`, and there was a reason to stop there.
abbrev pub Answers : Limits → Reply → ℕ → Result → Type 0
Answers limits answers last result = result ≡ embedded
Answers limits (raises transient daily) last result =
    (result ≡ raised transient daily)
    × ((transient ≡ false) ⊎ (daily ≡ true) ⊎ (last ≡ limits.max_retries))

-- How the requests from `first` on end: with the last that was sent, those before it being retried;
-- or with one that the limit of the day does not allow, all that were sent being retried.
abbrev pub EndsWith : Limits → Call → (ℕ → ℕ) → (ℕ → Reply) → ℕ → Embedding → Type 0
EndsWith limits call clock reply first e =
    ((last : ℕ) × (e.sent ≡ last + 1)
      × AreRetried reply first last
      × Answers limits (reply last) last e.result)
    ⊎ ((e.result ≡ limit_reached)
        × AreRetried reply first e.sent
        × (limits.daily_request_limit ≤ requests_today call.workspace_id (clock e.sent) e.rows))

retried_first :
    (reply : ℕ → Reply) (first stop : ℕ)
    → reply first ≡ raises true false
    → AreRetried reply (first + 1) stop
    → AreRetried reply first stop
retried_first reply first stop h hs i low high = elim (Bool-cases (i == first)) [
  | inl e ↦ let same : first ≡ i = ground arith in subst (λ k. reply k ≡ raises true false) same h
  | inr e ↦ hs i (ground arith) high
]

refused_full :
    (limits : Limits) (p : Provider) (call : Call) (now : ℕ) (rows : List EmbeddingRequest)
    → (record_request limits p call now rows).1 ≡ false
    → limits.daily_request_limit
      ≤ requests_today call.workspace_id now (record_request limits p call now rows).0
unfolding record_request
refused_full limits p call now rows h =
    elim (Bool-cases (
      (p.metered && ltb 0 limits.daily_request_limit)
      && leb limits.daily_request_limit (requests_today call.workspace_id now rows))) [
        | inl e ↦ rw e (ground arith)
        | inr e ↦ absurd (ground arith)
      ]

stops_for :
    (limits : Limits) (transient daily : Bool) (last : ℕ)
    → (not transient || daily || last == limits.max_retries) ≡ true
    → (transient ≡ false) ⊎ (daily ≡ true) ⊎ (last ≡ limits.max_retries)
stops_for limits false daily last h = inl refl
stops_for limits true true last h = inr (inl refl)
stops_for limits true false last h = inr (inr (ground arith))

goes_on_for :
    (transient daily : Bool) (last most : ℕ)
    → (not transient || daily || last == most) ≡ false
    → ◌≡◌ {A = Reply} (raises transient daily) (raises true false) × (last ≢ most)
goes_on_for false daily last most h = absurd (ground arith)
goes_on_for true true last most h = absurd (ground arith)
goes_on_for true false last most h = (refl, λ e. ground arith)

embed_from-EndsWith :
    (limits : Limits) (p : Provider) (call : Call) (clock : ℕ → ℕ) (reply : ℕ → Reply)
    (left attempt : ℕ) (rows : List EmbeddingRequest)
    → attempt + left ≡ limits.max_retries + 1
    → 0 < left
    → EndsWith limits call clock reply attempt
        (embed_from limits p call clock reply left attempt attempt rows)
unfolding embed_from
embed_from-EndsWith limits p call clock reply zero attempt rows same more = absurd (omega arith)
embed_from-EndsWith limits p call clock reply (suc left) attempt rows same more =
    let counted = (record_request limits p call (clock attempt) rows).0 in
    elim (Bool-cases (record_request limits p call (clock attempt) rows).1) [
      | inr e ↦ rw e (
          inr (
            refl,
            λ i low high. absurd (omega arith),
            refused_full limits p call (clock attempt) rows e,
          ))
      | inl e ↦ elim (Reply-cases (reply attempt)) [
        | inl f ↦ rw e (rw f (inl (attempt, refl, λ i low high. absurd (omega arith), rw f refl)))
        | inr (transient, daily, f) ↦
            elim (Bool-cases (not transient || daily || attempt == limits.max_retries)) [
              | inl g ↦ rw e (
                  rw f (
                    rw g (
                      inl (
                        attempt,
                        refl,
                        λ i low high. absurd (omega arith),
                        rw f (refl, stops_for limits transient daily attempt g),
                      ))))
              | inr g ↦
                  let (again, short) = goes_on_for transient daily attempt limits.max_retries g in
                  rw e (
                    rw f (
                      rw g
                        (elim (embed_from-EndsWith limits p call clock reply left (attempt + 1)
                          counted (omega arith) (ground arith)) [
                            | inl (last, sent, retried, ends) ↦ inl (
                              last,
                              sent,
                              retried_first reply attempt last (f ∙ again) retried,
                              ends,
                            )
                            | inr (full, retried, used) ↦
                                inr (full, retried_first reply attempt _ (f ∙ again) retried, used)
                          ])))
            ]
      ]
    ]

-- A call of `embed` to a metered provider with a daily limit, whatever its clock and its replies: no
-- day of a workspace gets more requests than the limit, if none had; each request that was sent was
-- counted, and no others; at most one more than `max_retries` are sent. Only a transient error that
-- is no daily quota is followed by another request. The call ends with the answer or the error that
-- its last request got, an error that may be retried only after the last retry; or with the limit,
-- where the requests of the day have reached it.
pub embed-WithinDays :
    (limits : Limits) (p : Provider) (call : Call) (clock : ℕ → ℕ) (reply : ℕ → Reply)
    (rows : List EmbeddingRequest)
    → p.metered ≡ true
    → 0 < limits.daily_request_limit
    → WithinDays limits.daily_request_limit rows
    → let e = embed limits p call clock reply rows in
      WithinDays limits.daily_request_limit e.rows
      × (length e.rows ≡ length rows + e.sent)
      × (e.sent ≤ limits.max_retries + 1)
      × EndsWith limits call clock reply 0 e
unfolding embed
embed-WithinDays limits p call clock reply rows metered positive h =
    let (a, b, c) =
      embed_from-Bounded limits p call clock reply (limits.max_retries + 1) 0 0 rows metered
        positive (omega arith) (omega arith) h in
    let ends =
      embed_from-EndsWith limits p call clock reply (limits.max_retries + 1) 0 rows (omega arith)
        (omega arith) in
    (a, omega arith, omega arith, ends)
