-- ===== src/Realtime/Hub.antt =====
-- api/realtime/hub.py: the sockets of one process, by document. A connection is its id.
use synapse_canvas.Base.{
  true, ℕ, ◌≡◌, refl, List, [], ◌∷◌, ◌++◌, arith, Bool, false, not, ◌&&◌, Option, none, some, ◌==◌,
  if◌then◌else◌, any, keep, opt_eq, ap,
}
use synapse_canvas.Base.Dict.{Dict, lookup, insert, erase, lookup-insert, lookup-erase}

abbrev pub is_member : ℕ → List ℕ → Bool
is_member c cs = any (λ d. d == c) cs

-- `_connections`: a set of connections under each document.
abbrev pub Connections : Type 0
Connections = Dict (List ℕ)

abbrev pub or_empty : Option (List ℕ) → List ℕ
or_empty none = []
or_empty (some cs) = cs

unfoldable pub local_connections : Connections → ℕ → List ℕ
local_connections hub document = or_empty (lookup document hub)

unfoldable pub join : Connections → ℕ → ℕ → Connections
unfolding local_connections
join hub document connection =
    let cs = local_connections hub document in
    if is_member connection cs then hub else insert document (cs ++ (connection ∷ [])) hub

-- `peers.discard(connection)`, and the document's entry deleted with its last connection.
abbrev pub put_or_delete : ℕ → List ℕ → Connections → Connections
put_or_delete document [] hub = erase document hub
put_or_delete document (c ∷ cs) hub = insert document (c ∷ cs) hub

unfoldable pub leave : Connections → ℕ → ℕ → Connections
leave hub document connection = elim (lookup document hub) [
  | none ↦ hub
  | some cs ↦ put_or_delete document (keep (λ d. not (d == connection)) cs) hub
]

-- The loop of `_deliver`: those that the payload reached. `fails` tells the sockets whose send
-- raises; they are deregistered.
pub deliver_to : (ℕ → Bool) → Option ℕ → ℕ → List ℕ → Connections → Connections × List ℕ
unfolding leave
deliver_to fails origin document [] hub = (hub, [])
deliver_to fails origin document (c ∷ cs) hub =
    if opt_eq (some c) origin
    then deliver_to fails origin document cs hub
    else if fails c
    then deliver_to fails origin document cs (leave hub document c)
    else let (hub', reached) = deliver_to fails origin document cs hub in (hub', c ∷ reached)

unfoldable pub deliver : (ℕ → Bool) → Connections → ℕ → Option ℕ → Connections × List ℕ
unfolding deliver_to local_connections
deliver fails hub document origin =
    deliver_to fails origin document (local_connections hub document) hub

pub local_connections-put_or_delete :
    (document other : ℕ) (cs : List ℕ) (hub : Connections)
    → local_connections (put_or_delete document cs hub) other
      ≡ (if other == document then cs else local_connections hub other)
unfolding local_connections
local_connections-put_or_delete document other [] hub =
    ground (arith, lookup-erase other document hub)
local_connections-put_or_delete document other (c ∷ cs) hub =
    ground (arith, lookup-insert other document (c ∷ cs) hub)

pub local_connections-leave :
    (hub : Connections) (document connection other : ℕ)
    → local_connections (leave hub document connection) other ≡ (
        if other == document
        then keep (λ d. not (d == connection)) (local_connections hub other)
        else local_connections hub other)
unfolding leave local_connections
local_connections-leave hub document connection other =
    let kept = keep (λ d. not (d == connection)) (or_empty (lookup document hub)) in
    ground (
      arith,
      local_connections-put_or_delete document other kept hub,
      ap (λ k. lookup k hub) {x = other} {y = document},
    )

pub is_member-keep : (c : ℕ) (cs : List ℕ) → is_member c (keep (λ d. not (d == c)) cs) ≡ false
is_member-keep c [] = refl
is_member-keep c (d ∷ cs) = ground (arith, is_member-keep c cs)

reached-deliver_to :
    (fails : ℕ → Bool) (origin : Option ℕ) (document c : ℕ) (cs : List ℕ) (hub : Connections)
    → is_member c (deliver_to fails origin document cs hub).1
      ≡ (is_member c cs && (not (opt_eq (some c) origin) && not (fails c)))
unfolding deliver_to
reached-deliver_to fails origin document c [] hub = refl
reached-deliver_to fails origin document c (d ∷ cs) hub = ground (
  arith,
  reached-deliver_to fails origin document c cs hub,
  reached-deliver_to fails origin document c cs (leave hub document d),
  ap fails {x = c} {y = d},
)

-- A delivery reaches those connections of the document, and no others, that are not its origin
-- and whose send succeeds.
pub reached-deliver :
    (fails : ℕ → Bool) (hub : Connections) (document : ℕ) (origin : Option ℕ) (c : ℕ)
    → is_member c (deliver fails hub document origin).1 ≡ (
        is_member c (local_connections hub document)
        && (not (opt_eq (some c) origin) && not (fails c)))
unfolding deliver
reached-deliver fails hub document origin c =
    reached-deliver_to fails origin document c (local_connections hub document) hub

is_member-append : (c : ℕ) (cs : List ℕ) → is_member c (cs ++ (c ∷ [])) ≡ true
is_member-append c [] = ground arith
is_member-append c (d ∷ cs) = ground (arith, is_member-append c cs)

pub is_member-join :
    (hub : Connections) (document c : ℕ)
    → is_member c (local_connections (join hub document c) document) ≡ true
unfolding join local_connections
is_member-join hub document c =
    let cs = or_empty (lookup document hub) in
    ground (arith, is_member-append c cs, lookup-insert document document (cs ++ (c ∷ [])) hub)
