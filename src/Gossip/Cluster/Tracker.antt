-- ===== src/Gossip/Cluster/Tracker.antt =====
-- internal/cluster/tracker.go. A time is a number of nanoseconds; a difference of times that the
-- code compares with the timeout, which is not negative, is 0 here where it is negative there.
pub mod Laws
pub mod Expiry
use heis_test.Prelude.{
  ℕ, List, [], ◌∷◌, Bool, true, false, not, ◌&&◌, ◌||◌, Option, none, some, ◌-◌, ltb, ite,
  if◌then◌else◌, length, compare, ℕ_discrete, map, Ordering,
}
use heis_test.Prelude.Assoc
use heis_test.Prelude.Sort
use heis_test.Prelude.Compare.{is_lt, compare_bytes}
use heis_test.Gossip.Model.Soft.{SoftState, SoftState-discrete}

pub record Peer : Type 0 where
  pub state : SoftState
  pub seen : ℕ

pub record PeerTracker : Type 0 where
  pub timeout : ℕ
  pub peers : List (ℕ × Peer)

-- `NewPeerTracker`.
unfoldable pub new_peer_tracker : ℕ → PeerTracker
new_peer_tracker timeout = record { timeout = timeout; peers = [] }

-- `state.BootID < current.state.BootID`, where the peer is known.
abbrev pub is_outdated : SoftState → Option Peer → Bool
is_outdated state none = false
is_outdated state (some p) = is_lt (compare_bytes state.boot_id p.state.boot_id)

-- `!ok || current.state != state`.
abbrev pub is_change : SoftState → Option Peer → Bool
is_change state none = true
is_change state (some p) = ite (SoftState-discrete p.state state) false true

-- `Observe`: the tracker after the call, and its result.
unfoldable pub observe : SoftState → ℕ → PeerTracker → PeerTracker × Bool
observe state now t =
    let current = Assoc.get? ℕ_discrete state.id t.peers in
    if is_outdated state current then (t, false) else (
      record t {
        peers = Assoc.put ℕ_discrete state.id (record { state = state; seen = now }) t.peers;
      },
      is_change state current,
    )

-- `now.Sub(peer.seen) > t.timeout`.
abbrev pub is_silent : ℕ → ℕ → Peer → Bool
is_silent timeout now p = ltb timeout (now - p.seen)

-- The loop of `Expire`: the peers that stay, and `changed`.
unfoldable pub expire_from : ℕ → ℕ → List (ℕ × Peer) → List (ℕ × Peer) × Bool
expire_from timeout now [] = ([], false)
expire_from timeout now ((id, p) ∷ ps) =
    let (rest, changed) = expire_from timeout now ps in
    if is_silent timeout now p then (rest, true) else ((id, p) ∷ rest, changed)

-- `Expire`.
unfoldable pub expire : ℕ → PeerTracker → PeerTracker × Bool
expire now t =
    let (peers', changed) = expire_from t.timeout now t.peers in
    (record t { peers = peers' }, changed)

-- `Connected`.
unfoldable pub connected : PeerTracker → Bool
connected t = ltb 0 (length t.peers)

abbrev pub compare_id : SoftState → SoftState → Ordering
compare_id a b = compare a.id b.id

-- `LiveStates`.
unfoldable pub live_states : SoftState → PeerTracker → List SoftState
live_states self t = Sort.sort compare_id (self ∷ map (λ e. e.1.state) t.peers)
