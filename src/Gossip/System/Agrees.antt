-- ===== src/Gossip/System/Agrees.antt =====
-- Hall requests that README.md has each node assign on its own, for elevators that run together
-- (internal/assigner/assigner.go, `ApplyRemote` and `assignments` of
-- internal/controller/controller.go).
use heis_test.Prelude.{
  ℕ, ◌*◌, ◌^◌, ◌<◌, ◌≡◌, sym, ap, ◌∙◌, subst, List, ◌∷◌, All-map, All-member, All-Permᴰ, arith,
}
use mathlib.Core.List.{Memᴰ}
use heis_test.Prelude.Assoc
use heis_test.Prelude.Sort
use heis_test.Prelude.Strict.{All-members}
use heis_test.Gossip.Model.Key.{RequestKey, RequestKey-discrete}
use heis_test.Gossip.Model.Soft.{SoftState, Snapshot}
use heis_test.Gossip.Model.Table.{RequestCell, active, cell}
use heis_test.Gossip.Model.Table.Lookup.{IsTable}
use heis_test.Gossip.Cluster.Tracker.{compare_id}
use heis_test.Gossip.Cluster.Merge.{merge_requests, merge_requests-IsTable}
use heis_test.Gossip.Assigner.{assign}
use heis_test.Gossip.Assigner.Agreement.{Includes, assign_agrees}
use heis_test.Gossip.Controller.State.{Config, Controller}
use heis_test.Gossip.Controller.Requests.{assignments}
use heis_test.Gossip.Controller.Handlers.{snapshot, observe_peer}
use heis_test.Gossip.Controller.Sound.Assigned.{known_states, live_states-cons, live_states-sorted}
use heis_test.Gossip.System.{System, Reach}
use heis_test.Gossip.System.Reached.{Reach-IsConsistent}
use heis_test.Gossip.System.Converges.{Reach-exchange}

-- `ApplyRemote` up to its test whether anything changed.
unfoldable pub hear : ℕ → Snapshot → Controller → Controller
hear now snap c =
    let m = merge_requests c.reqs c.clock snap.requests in
    (observe_peer now snap.soft (record c { reqs = m.0; clock = m.1 })).0

reqs-hear :
    (now : ℕ) (snap : Snapshot) (c : Controller)
    → (hear now snap c).reqs ≡ (merge_requests c.reqs c.clock snap.requests).0
unfolding hear observe_peer
reqs-hear now snap c = ground arith

hear-IsTable :
    (now : ℕ) (snap : Snapshot) (c : Controller) → IsTable c.reqs → IsTable (hear now snap c).reqs
hear-IsTable now snap c h =
    subst IsTable (sym (reqs-hear now snap c))
      (merge_requests-IsTable c.reqs c.clock snap.requests h)

sorted-Includes :
    (xs ys : List SoftState)
    → Includes xs ys
    → Includes (Sort.sort compare_id xs) (Sort.sort compare_id ys)
sorted-Includes xs ys h =
    let back =
      All-Permᴰ (λ s. Memᴰ s (Sort.sort compare_id ys)) (Sort.sort-Permᴰ compare_id ys)
        (All-members (Sort.sort compare_id ys)) in
    Sort.sort-All compare_id (λ s. Memᴰ s (Sort.sort compare_id ys)) xs
      (All-map (λ s m. All-member (λ r. Memᴰ r (Sort.sort compare_id ys)) m back) xs h)

-- Controllers that know the same states, and agree on whether a request is active, assign it alike.
assignments_agree :
    (c d : Controller) (k : RequestKey)
    → IsTable c.reqs
    → IsTable d.reqs
    → active c.reqs k ≡ active d.reqs k
    → Includes (known_states c) (known_states d)
    → Includes (known_states d) (known_states c)
    → Assoc.get? RequestKey-discrete k (assignments c)
      ≡ Assoc.get? RequestKey-discrete k (assignments d)
unfolding assignments
assignments_agree c d k hc hd act there back =
    let (x, xs, e) = live_states-cons c in
    let (y, ys, f) = live_states-cons d in
    let p = sym (live_states-sorted c) ∙ e in
    let q = sym (live_states-sorted d) ∙ f in
    let to = sorted-Includes (known_states c) (known_states d) there in
    let from = sorted-Includes (known_states d) (known_states c) back in
    ap (λ ss. Assoc.get? RequestKey-discrete k (assign c.reqs ss)) e
    ∙ assign_agrees c.reqs d.reqs x y xs ys k hc hd act
        (subst (λ us. Includes us (y ∷ ys)) p (subst (Includes _) q to))
        (subst (λ us. Includes us (x ∷ xs)) q (subst (Includes _) p from))
    ∙ ap (λ ss. Assoc.get? RequestKey-discrete k (assign d.reqs ss)) (sym f)

module _ {cfgs : ℕ → Config} {born : ℕ → ℕ} (named : (i : ℕ) → (cfgs i).elevator_id ≡ i) {n : ℕ}
    {s : System} (fits : 6 * n < 2 ^ 64) (r : Reach cfgs born n s) where
  -- In every state that the elevators can reach together in n steps, with 6 n below 2^64, where
  -- elevator i has the ID i and has booted once: two elevators that have each taken in the snapshot
  -- of the other's controller, its requests and its car, and then know the same cars, have each
  -- hall request assigned to the same elevator, or both to none.
  pub Reach-hear_agrees :
      (i j now soon : ℕ) (k : RequestKey)
      → let c = hear now (snapshot (s.processes j).controller) (s.processes i).controller in
        let d = hear soon (snapshot (s.processes i).controller) (s.processes j).controller in
        Includes (known_states c) (known_states d)
        → Includes (known_states d) (known_states c)
        → Assoc.get? RequestKey-discrete k (assignments c)
          ≡ Assoc.get? RequestKey-discrete k (assignments d)
  unfolding active
  Reach-hear_agrees i j now soon k there back =
      let h = Reach-IsConsistent cfgs born named fits r in
      let c = (s.processes i).controller in
      let d = (s.processes j).controller in
      let act =
        ap (λ t. cell t k) (reqs-hear now (snapshot d) c)
        ∙ Reach-exchange named fits r i j k
        ∙ sym (ap (λ t. cell t k) (reqs-hear soon (snapshot c) d)) in
      assignments_agree _ _ k (hear-IsTable now (snapshot d) c (h.running i).table)
        (hear-IsTable soon (snapshot c) d (h.running j).table)
        (ap (λ (x : RequestCell). x.active) act) there back
