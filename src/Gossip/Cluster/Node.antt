-- ===== src/Gossip/Cluster/Node.antt =====
-- internal/cluster/node.go: the node that broadcasts the snapshot of its process, and queues the
-- snapshots that it receives.
use heis_test.Prelude.{ℕ, List, [], ◌∷◌, ◌++◌, map, Option, none, some, ltb, length, if◌then◌else◌}
use heis_test.Gossip.Model.Soft.{Snapshot}

-- The oldest of `incoming` is at the head.
pub record Node : Type 0 where
  pub incoming : List Snapshot
  pub last : Snapshot

-- The capacity of the channel that `Start` makes.
abbrev pub queue_size : ℕ
queue_size = 64

-- `Start`, where the socket opens. What `last` is before the first `SetLocal` is an argument: in the
-- code it is the zero snapshot, whose behaviour has no name.
unfoldable pub start : Snapshot → Node
start zero_snapshot = record { incoming = []; last = zero_snapshot }

-- `SetLocal`.
unfoldable pub set_local : Snapshot → Node → Node
set_local snap n = record n { last = snap }

-- What one round of `recv` reads: nothing, by a timeout or an error; a payload that is not a
-- snapshot; or a snapshot.
pub data Read : Type 0 where
  failed garbled : Read
  decoded : Snapshot → Read

-- One round of `recv`. A snapshot that does not fit into the channel is dropped.
unfoldable pub receive : Read → Node → Node
receive failed n = n
receive garbled n = n
receive (decoded snap) n =
    if ltb (length n.incoming) queue_size
    then record n { incoming = n.incoming ++ snap ∷ [] }
    else n

-- One tick of `send`: the snapshot for each address.
unfoldable pub send {ℓ} : {A : Type ℓ} → List A → Node → List (A × Snapshot)
send addrs n = map (λ addr. (addr, n.last)) addrs

-- `targets`, with the broadcast address as text; `resolve` is `net.ResolveUDPAddr`.
unfoldable pub resolve_all {ℓ κ} :
    {Text : Type ℓ} {A : Type κ} → (Text → Option A) → List Text → List A
resolve_all resolve [] = []
resolve_all resolve (t ∷ ts) =
    let rest = resolve_all resolve ts in elim (resolve t) [ none ↦ rest | some addr ↦ addr ∷ rest ]

unfoldable pub targets {ℓ κ} :
    {Text : Type ℓ} {A : Type κ} → (Text → Option A) → Text → List Text → List A
targets resolve broadcast [] = resolve_all resolve (broadcast ∷ [])
targets resolve broadcast (t ∷ ts) = resolve_all resolve (t ∷ ts)
