-- ===== src/Gossip/Controller/Sound/Assigned.antt =====
-- Who gets a hall request in a controller that is reached (`assignments` of
-- internal/controller/controller.go).
use heis_test.Prelude.{ℕ, ◌≡◌, refl, sym, ap, subst, ◌∙◌, List, ◌∷◌, map, true, some}
use heis_test.Prelude.Assoc
use heis_test.Prelude.Sort
use heis_test.Prelude.Int.{ℤ}
use heis_test.Gossip.Model.Key.{RequestKey, RequestKey-discrete, is_hall}
use heis_test.Gossip.Model.Table.{active}
use heis_test.Gossip.Model.Soft.{SoftState}
use heis_test.Gossip.Cluster.Tracker.{live_states, compare_id}
use heis_test.Gossip.Assigner.{assign}
use heis_test.Gossip.Assigner.Best.{IsLowest, Bids, Bids-Permᴰ}
use heis_test.Gossip.Assigner.Agreement.{assign-IsLowest, insert-cons, sorted-IsLowest}
use heis_test.Gossip.Controller.State.{Config, Controller}
use heis_test.Gossip.Controller.Requests.{assignments}
use heis_test.Gossip.Controller.Events.{Reach}
use heis_test.Gossip.Controller.Sound.{Reach-IsSound}

-- The own state, and those of the peers.
abbrev pub known_states : Controller → List SoftState
known_states c = c.car ∷ map (λ p. p.1.state) c.peers.peers

pub live_states-cons :
    (c : Controller)
    → (x : SoftState) × (xs : List SoftState) × (live_states c.car c.peers ≡ x ∷ xs)
unfolding live_states Sort.sort
live_states-cons c = insert-cons c.car (Sort.sort compare_id (map (λ p. p.1.state) c.peers.peers))

pub live_states-sorted :
    (c : Controller) → live_states c.car c.peers ≡ Sort.sort compare_id (known_states c)
unfolding live_states
live_states-sorted c = refl

-- In every controller that events can lead to from a fresh one, with any configuration, an active
-- hall request is given to an elevator among the controller's own and its peers, whose bid, its
-- cost and then its ID, is the lowest of all their bids.
pub Reach-assigned :
    {cfg : Config} {boot : ℕ} {c : Controller} (k : RequestKey)
    → Reach cfg boot c
    → is_hall k.kind ≡ true
    → active c.reqs k ≡ true
    → (b : ℤ × ℕ) × (Assoc.get? RequestKey-discrete k (assignments c) ≡ some b.1)
      × IsLowest k b (known_states c)
      × Bids k b (known_states c)
unfolding assignments
Reach-assigned {c = c} k r hall act =
    let (x, xs, e) = live_states-cons c in
    let (b, q, low, bids) = assign-IsLowest c.reqs x xs k (Reach-IsSound r).table hall act in
    let sorted = sym e ∙ live_states-sorted c in
    (
      b,
      ap (λ ss. Assoc.get? RequestKey-discrete k (assign c.reqs ss)) e ∙ q,
      sorted-IsLowest k b (known_states c) (subst (IsLowest k b) sorted low),
      Bids-Permᴰ k b (Sort.sort-Permᴰ compare_id (known_states c)) (subst (Bids k b) sorted bids),
    )
