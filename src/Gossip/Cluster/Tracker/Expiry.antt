-- ===== src/Gossip/Cluster/Tracker/Expiry.antt =====
-- Which peers `Expire` drops, and what it answers (internal/cluster/tracker.go).
use heis_test.Prelude.{
  ℕ, ◌+◌, ◌≤◌, ◌<◌, ◌≡◌, ◌↔◌, sym, ◌∙◌, List, [], ◌∷◌, true, Option, none, some, arith, ℕ_discrete,
  Bool-cases, inl, inr,
}
use heis_test.Prelude.Assoc
use heis_test.Gossip.Cluster.Tracker.{Peer, PeerTracker, is_silent, expire_from, expire}
use heis_test.Gossip.Cluster.Tracker.Laws.{peer, filtered, IsTracker, peer-expire}

-- A peer that was seen at most the timeout ago, and one that was not.
abbrev pub IsFresh : ℕ → ℕ → Peer → Type 0
IsFresh timeout now p = now ≤ p.seen + timeout

abbrev pub IsStale : ℕ → ℕ → Peer → Type 0
IsStale timeout now p = p.seen + timeout < now

filtered_sound :
    (timeout now : ℕ) (o : Option Peer) (p : Peer)
    → filtered timeout now o ≡ some p
    → (o ≡ some p) × IsFresh timeout now p
filtered_sound timeout now none p e = absurd (ground arith)
filtered_sound timeout now (some q) p e = elim (Bool-cases (is_silent timeout now q)) [
  | inl t ↦ absurd (ground arith)
  | inr f ↦ (ground arith, ground arith)
]

filtered_complete :
    (timeout now : ℕ) (o : Option Peer) (p : Peer)
    → o ≡ some p
    → IsFresh timeout now p
    → filtered timeout now o ≡ some p
filtered_complete timeout now o p e h = rw e (ground arith)

-- The peers that have gone stale.
abbrev AnyStale : ℕ → ℕ → List (ℕ × Peer) → Type 0
AnyStale timeout now ps =
    (id : ℕ) × (p : Peer) × (Assoc.get? ℕ_discrete id ps ≡ some p) × IsStale timeout now p

expire_from_changed :
    (timeout now : ℕ) (ps : List (ℕ × Peer))
    → Assoc.Distinct ℕ_discrete ps
    → (expire_from timeout now ps).1 ≡ true
    → AnyStale timeout now ps
unfolding expire_from Assoc.get?
expire_from_changed timeout now [] d e = absurd (ground arith)
expire_from_changed timeout now ((j, p) ∷ ps) d e = elim (Bool-cases (is_silent timeout now p)) [
  | inl t ↦ (j, p, ground arith, ground arith)
  | inr f ↦
      let (id, q, found, stale) = expire_from_changed timeout now ps d.1 (ground arith) in
      (id, q, ground (arith, d.0), stale)
]

expire_from_stale :
    (timeout now : ℕ) (ps : List (ℕ × Peer)) (id : ℕ) (q : Peer)
    → Assoc.get? ℕ_discrete id ps ≡ some q
    → IsStale timeout now q
    → (expire_from timeout now ps).1 ≡ true
unfolding expire_from Assoc.get?
expire_from_stale timeout now [] id q e l = absurd (ground arith)
expire_from_stale timeout now ((j, p) ∷ ps) id q e l =
    ground (arith, expire_from_stale timeout now ps id q)

-- For a tracker without repeated IDs: after `Expire` a peer is known exactly if it was known and
-- was seen at most the timeout before now, with the same state and time; and `Expire` answers true
-- exactly if some known peer was seen longer ago than that.
pub expire_iff :
    (now id : ℕ) (p : Peer) (t : PeerTracker)
    → IsTracker t
    → ((peer id (expire now t).0 ≡ some p) ↔ ((peer id t ≡ some p) × IsFresh t.timeout now p))
      × (((expire now t).1 ≡ true)
          ↔ ((j : ℕ) × (q : Peer) × (peer j t ≡ some q) × IsStale t.timeout now q))
unfolding expire
expire_iff now id p t h = (
  (
    λ e. filtered_sound t.timeout now (peer id t) p (sym (peer-expire now id t h) ∙ e),
    λ (e, l). peer-expire now id t h ∙ filtered_complete t.timeout now (peer id t) p e l,
  ),
  (
    expire_from_changed t.timeout now t.peers h,
    λ (j, q, e, l). expire_from_stale t.timeout now t.peers j q e l,
  ),
)
