-- ===== src/Realtime/Presence.antt =====
-- api/services/presence.py: the Redis hash of one document, by user. A value that `_decode` cannot
-- read is `none`. Redis drops the whole hash when nobody has touched it for twice the TTL.
use synapse_canvas.Base.{
  ℕ, ◌+◌, ◌≡◌, List, [], ◌∷◌, arith, Bool, true, false, not, Option, none, some, leb, ltb, ◌==◌,
  if◌then◌else◌,
}
use synapse_canvas.Base.Dict.{Dict, lookup, insert, erase, lookup-insert, lookup-erase}
use synapse_canvas.ProseMirror.Utf16.{Text}

pub record Peer : Type 0 where
  pub user_id : ℕ
  pub name : Text
  pub color : ℕ
  pub anchor : Option ℕ
  pub head : Option ℕ
  pub connection_id : ℕ

abbrev pub Hash : Type 0
Hash = Dict (Option (Peer × ℕ))

unfoldable pub touch : Hash → Peer → ℕ → ℕ → Hash
touch hash peer now ttl = insert peer.user_id (some (peer, now + ttl)) hash

-- `decoded is None or decoded[1] <= now`
abbrev pub has_lapsed : ℕ → Option (Peer × ℕ) → Bool
has_lapsed now none = true
has_lapsed now (some (peer, expires_at)) = leb expires_at now

abbrev pub lapsed_users : Hash → ℕ → List ℕ
lapsed_users [] now = []
lapsed_users (e ∷ es) now =
    if has_lapsed now e.1 then e.0 ∷ lapsed_users es now else lapsed_users es now

-- `redis.hdel(key, *users)`
abbrev pub erase_all : List ℕ → Hash → Hash
erase_all [] hash = hash
erase_all (u ∷ us) hash = erase_all us (erase u hash)

unfoldable pub sweep : Hash → ℕ → Hash × List ℕ
sweep hash now = (erase_all (lapsed_users hash now) hash, lapsed_users hash now)

unfoldable pub peers : Hash → ℕ → List Peer
peers [] now = []
peers ((user, none) ∷ es) now = peers es now
peers ((user, some (peer, expires_at)) ∷ es) now =
    if ltb now expires_at then peer ∷ peers es now else peers es now

-- Whether a stored value is that of another connection.
abbrev pub is_newer : ℕ → Option (Peer × ℕ) → Bool
is_newer connection_id none = false
is_newer connection_id (some (peer, expires_at)) = not (peer.connection_id == connection_id)

unfoldable pub leave : Hash → ℕ → ℕ → Hash × Bool
leave hash user_id connection_id = elim (lookup user_id hash) [
  | none ↦ (hash, false)
  | some value ↦ if is_newer connection_id value then (hash, false) else (erase user_id hash, true)
]

-- Whether the value of a user is this connection's.
abbrev pub is_of : ℕ → Option (Option (Peer × ℕ)) → Bool
is_of connection_id (some (some (peer, expires_at))) = peer.connection_id == connection_id
is_of connection_id _ = false

pub lookup-leave :
    (hash : Hash) (user_id connection_id other : ℕ)
    → (is_of connection_id (lookup user_id (leave hash user_id connection_id).0) ≡ false)
      × ((other == user_id) ≡ false
          → lookup other (leave hash user_id connection_id).0 ≡ lookup other hash)
unfolding leave
lookup-leave hash user_id connection_id other =
    ground (arith, lookup-erase user_id user_id hash, lookup-erase other user_id hash)

-- A tab that leaves late takes nothing from a fresh one: where the user's latest heartbeat came
-- from another connection, `leave` answers false and the entry of that heartbeat stays.
pub leave-touch :
    (hash : Hash) (peer : Peer) (now ttl connection_id : ℕ)
    → (peer.connection_id == connection_id) ≡ false
    → leave (touch hash peer now ttl) peer.user_id connection_id ≡ (touch hash peer now ttl, false)
unfolding leave touch
leave-touch hash peer now ttl connection_id other =
    rw (lookup-insert peer.user_id peer.user_id (some (peer, now + ttl)) hash, leave) (ground arith)
