-- ===== src/Gossip/Cluster/Tracker/Laws.antt =====
-- What the tracker of peers keeps (internal/cluster/tracker.go).
use heis_test.Prelude.{
  ℕ, ◌≡◌, refl, List, [], ◌∷◌, false, Option, none, some, arith, ℕ_discrete, if◌then◌else◌,
  Bool-cases, inl, inr,
}
use heis_test.Prelude.Assoc
use heis_test.Prelude.Compare.{is_lt, compare_bytes, compare_bytes-IsCompare}
use heis_test.Gossip.Model.Soft.{SoftState}
use heis_test.Gossip.Cluster.Tracker.{
  Peer, PeerTracker, is_outdated, observe, is_silent, expire_from, expire,
}

abbrev pub peer : ℕ → PeerTracker → Option Peer
peer id t = Assoc.get? ℕ_discrete id t.peers

-- No peer stands in the tracker twice.
abbrev pub IsTracker : PeerTracker → Type 0
IsTracker t = Assoc.Distinct ℕ_discrete t.peers

pub observe-IsTracker :
    (s : SoftState) (now : ℕ) (t : PeerTracker) → IsTracker t → IsTracker (observe s now t).0
unfolding observe
observe-IsTracker s now t h = elim (Bool-cases (is_outdated s (peer s.id t))) [
  | inl e ↦ rw (e, observe) h
  | inr e ↦ rw (e, observe) (Assoc.put-Distinct ℕ_discrete s.id _ t.peers h)
]

abbrev pub filtered : ℕ → ℕ → Option Peer → Option Peer
filtered timeout now none = none
filtered timeout now (some p) = if is_silent timeout now p then none else some p

expire_from-get? :
    (timeout now id : ℕ) (ps : List (ℕ × Peer))
    → Assoc.Distinct ℕ_discrete ps
    → Assoc.get? ℕ_discrete id (expire_from timeout now ps).0
      ≡ filtered timeout now (Assoc.get? ℕ_discrete id ps)
unfolding expire_from Assoc.get?
expire_from-get? timeout now id [] d = refl
expire_from-get? timeout now id ((j, p) ∷ ps) d =
    ground
      (arith, d.0, expire_from-get? timeout now id ps d.1, expire_from-get? timeout now j ps d.1)

expire_from-Distinct :
    (timeout now : ℕ) (ps : List (ℕ × Peer))
    → Assoc.Distinct ℕ_discrete ps
    → Assoc.Distinct ℕ_discrete (expire_from timeout now ps).0
unfolding expire_from
expire_from-Distinct timeout now [] d = tt
expire_from-Distinct timeout now ((j, p) ∷ ps) d = elim (Bool-cases (is_silent timeout now p)) [
  | inl e ↦ rw e (expire_from-Distinct timeout now ps d.1)
  | inr e ↦ rw e (
    ground (arith, expire_from-get? timeout now j ps d.1),
    expire_from-Distinct timeout now ps d.1,
  )
]

pub expire-IsTracker : (now : ℕ) (t : PeerTracker) → IsTracker t → IsTracker (expire now t).0
unfolding expire
expire-IsTracker now t h = expire_from-Distinct t.timeout now t.peers h

-- `Expire` drops a peer exactly if it was silent for longer than the timeout, and leaves every
-- other peer as it is, for a tracker without repeated IDs.
pub peer-expire :
    (now id : ℕ) (t : PeerTracker)
    → IsTracker t
    → peer id (expire now t).0 ≡ filtered t.timeout now (peer id t)
unfolding expire
peer-expire now id t h = expire_from-get? t.timeout now id t.peers h

expire_from_unchanged :
    (timeout now : ℕ) (ps : List (ℕ × Peer))
    → (expire_from timeout now ps).1 ≡ false
    → (expire_from timeout now ps).0 ≡ ps
unfolding expire_from
expire_from_unchanged timeout now [] h = refl
expire_from_unchanged timeout now ((j, p) ∷ ps) h =
    ground (arith, expire_from_unchanged timeout now ps)

pub expire_unchanged : (now : ℕ) (t : PeerTracker) → (expire now t).1 ≡ false → (expire now t).0 ≡ t
unfolding expire
expire_unchanged now t h = ground (arith, expire_from_unchanged t.timeout now t.peers h)

-- `a` started no later than `b`.
abbrev NotLater : List ℕ → List ℕ → Type 0
NotLater a b = is_lt (compare_bytes b a) ≡ false

-- If a peer is known before and after `Observe` saw some state, the boot ID that is kept for it
-- afterwards is not below the one that was kept before.
observe-NotLater :
    (s : SoftState) (now id : ℕ) (t : PeerTracker) {p q : Peer}
    → peer id t ≡ some p
    → peer id (observe s now t).0 ≡ some q
    → NotLater p.state.boot_id q.state.boot_id
unfolding observe
observe-NotLater s now id t {p} {q} h k = ground (
  arith,
  Assoc.get?-put ℕ_discrete s.id id (record { state = s; seen = now }) t.peers,
  compare_bytes-IsCompare.self p.state.boot_id,
)
