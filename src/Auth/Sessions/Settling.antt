-- ===== src/Auth/Sessions/Settling.antt =====
-- api/services/auth_service.py: what the refreshes under way leave of a family.
use synapse_canvas.Base.{
  ℕ, ◌+◌, ◌≤◌, ◌≡◌, ◌≢◌, sym, ap, subst, ◌∙◌, arith, false, Option, none, some, ◌==◌, ◌⊎◌,
  Bool-cases, inl, inr,
}
use synapse_canvas.Base.Dict.{Dict, lookup, insert, erase, lookup-insert, lookup-erase}
use synapse_canvas.Auth.Sessions.{Db, RefreshToken}
use synapse_canvas.Auth.Sessions.Families.{live_at, live_count}
use synapse_canvas.Auth.Sessions.Lowering.{Lowers}
use synapse_canvas.Auth.Sessions.Steps.{
  Pending, checked, issued, family_of, is_issued, System, Choice, begins_family, begins_refresh,
  cuts_short,
}

abbrev pub NoLive : ℕ → Db → Type 0
NoLive f db = live_count f db.refresh_tokens ≡ 0

-- No refresh of the family is under way.
abbrev pub NoCall : ℕ → Dict Pending → Type 0
NoCall f calls = (call : ℕ) (c : Pending) → lookup call calls ≡ some c → family_of c ≢ f

-- A sign-in begins a family without a live token; a refresh is accepted when no other of its family
-- is under way; and none is cut short between its commits.
abbrev pub Serial : Choice → System → Type 0
Serial (begins_family f) s = NoLive f s.db × NoCall f s.calls
Serial (begins_refresh f) s = NoCall f s.calls
Serial (cuts_short c) s = is_issued c ≡ false

-- A refresh under way leaves this many live tokens besides the one that it spends.
abbrev pub Settles : ℕ → Pending → Dict RefreshToken → Type 0
Settles f (checked p t user) d = live_count f d ≤ live_at f (lookup p.jti d)
Settles f (issued p t jti) d = live_count f d ≤ 1 + live_at f (lookup p.jti d)

pub record IsSerial (f : ℕ) (s : System) : Type 0 where
  pub alone :
      (call call' : ℕ) (c c' : Pending)
      → lookup call s.calls ≡ some c
      → lookup call' s.calls ≡ some c'
      → family_of c ≡ f
      → family_of c' ≡ f
      → call ≡ call'
  pub settling :
      (call : ℕ) (c : Pending)
      → lookup call s.calls ≡ some c
      → family_of c ≡ f
      → Settles f c s.db.refresh_tokens
  pub at_rest : NoCall f s.calls → live_count f s.db.refresh_tokens ≤ 1

Settles-Lowers :
    (f : ℕ) (c : Pending) (d d' : Dict RefreshToken)
    → Lowers f d d'
    → Settles f c d
    → Settles f c d'
Settles-Lowers f (checked p t user) d d' (low, others) h = omega (arith, others p.jti)
Settles-Lowers f (issued p t jti) d d' (low, others) h = omega (arith, others p.jti)

-- A write that gives the family no live token.
pub IsSerial-Lowers :
    (f : ℕ) (s : System) (db : Db)
    → Lowers f s.db.refresh_tokens db.refresh_tokens
    → IsSerial f s
    → IsSerial f (record s { db = db })
IsSerial-Lowers f s db low h = record {
  alone = h.alone;
  settling = λ call c at own.
      Settles-Lowers f c s.db.refresh_tokens db.refresh_tokens low (h.settling call c at own);
  at_rest = λ idle. omega (arith, low.0, h.at_rest idle);
}

-- A call of the table after an entry was written.
pub lookup-set :
    (x call : ℕ) (c c' : Pending) (calls : Dict Pending)
    → lookup x (insert call c' calls) ≡ some c
    → ((x ≡ call) × (c ≡ c')) ⊎ ((x ≢ call) × (lookup x calls ≡ some c))
lookup-set x call c c' calls h = elim (Bool-cases (x == call)) [
  | inl e ↦ inl (ground arith, ground (arith, lookup-insert x call c' calls))
  | inr e ↦ inr (λ k. ground arith, ground (arith, lookup-insert x call c' calls))
]

pub lookup-kept :
    (x call : ℕ) (c : Pending) (calls : Dict Pending)
    → lookup x (erase call calls) ≡ some c
    → lookup x calls ≡ some c
lookup-kept x call c calls h = ground (arith, lookup-erase x call calls)

some_eq : (a b : Pending) → ◌≡◌ {A = Option Pending} (some a) (some b) → a ≡ b
some_eq a b h = ground arith

-- A call of another family is there before its entry is written or erased as after.
NoCall-erase :
    (f call : ℕ) (c : Pending) (calls : Dict Pending)
    → lookup call calls ≡ some c
    → family_of c ≢ f
    → NoCall f (erase call calls)
    → NoCall f calls
NoCall-erase f call c calls at other idle x d there own = elim (Bool-cases (x == call)) [
  | inl e ↦
      let same : x ≡ call = ground arith in
      other (subst (λ k. family_of k ≡ f) (some_eq d c (sym there ∙ rw same at)) own)
  | inr e ↦ idle x d (ground (arith, lookup-erase x call calls)) own
]

pub NoCall-insert :
    (f call : ℕ) (c : Pending) (calls : Dict Pending)
    → (lookup call calls ≡ none)
      ⊎ ((c' : Pending) × (lookup call calls ≡ some c') × (family_of c' ≢ f))
    → NoCall f (insert call c calls)
    → NoCall f calls
NoCall-insert f call c calls before idle x d there own = elim (Bool-cases (x == call)) [
  | inr e ↦ idle x d (ground (arith, lookup-insert x call c calls)) own
  | inl e ↦
      let same : x ≡ call = ground arith in
      let here : lookup call calls ≡ some d = subst (λ k. lookup k calls ≡ some d) same there in
      elim before [
        | inl none_there ↦ absurd (ground arith)
        | inr (c', at, other) ↦ other (ap family_of (some_eq c' d (sym at ∙ here)) ∙ own)
      ]
]

-- A call that ends.
pub IsSerial-ends :
    (f call : ℕ) (c : Pending) (s : System)
    → lookup call s.calls ≡ some c
    → (family_of c ≡ f → live_count f s.db.refresh_tokens ≤ 1)
    → IsSerial f s
    → IsSerial f (record s { calls = erase call s.calls })
IsSerial-ends f call c s at few h = record {
  alone = λ x x' d d' there there'.
      h.alone x x' d d' (lookup-kept x call d s.calls there)
        (lookup-kept x' call d' s.calls there');
  settling = λ x d there. h.settling x d (lookup-kept x call d s.calls there);
  at_rest = λ idle. elim (Bool-cases (family_of c == f)) [
    | inl e ↦ few (ground arith)
    | inr e ↦ h.at_rest (NoCall-erase f call c s.calls at (λ k. ground arith) idle)
  ];
}
