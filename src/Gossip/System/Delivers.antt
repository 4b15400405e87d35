-- ===== src/Gossip/System/Delivers.antt =====
-- What an elevator has of a snapshot that it takes from its channel (cmd/elevator/main.go,
-- `ApplyRemote` of internal/controller/controller.go).
use heis_test.Prelude.{
  ℕ, ◌+◌, ◌*◌, ◌^◌, ◌<◌, ◌≤◌, ◌≡◌, refl, sym, ap, subst, List, ◌∷◌, arith, All, All-map, All-member,
  inl, inr, false,
}
use mathlib.Core.List.{Memᴰ}
use heis_test.Prelude.Strict.{All-members}
use heis_test.Gossip.Model.Key.{RequestKey}
use heis_test.Gossip.Model.Soft.{Snapshot}
use heis_test.Gossip.Model.Table.{RequestCell, RequestEntry, cell}
use heis_test.Gossip.Cluster.Merge.{
  is_newer, merge_requests, merge_requests_clock, cell-merge_requests,
}
use heis_test.Gossip.Cluster.Writes.{History}
use heis_test.Gossip.Cluster.Same.{join_all_offered}
use heis_test.Gossip.Controller.Logged.{Logged, IsLogged-rebase}
use heis_test.Gossip.Controller.Logged.Steps.{merge_requests-IsLogged, incoming-IsLogged}
use heis_test.Gossip.Controller.Events.{Event, handle}
use heis_test.Gossip.Controller.State.{Config, Controller}
use heis_test.Gossip.Process.{Process, act, incoming, take_incoming, take_from, publish}
use heis_test.Gossip.System.{System, Reach}
use heis_test.Gossip.System.Known.{IsKnown, known-IsFamily}
use heis_test.Gossip.System.Spoken.{Says}
use heis_test.Gossip.System.Consistent.{IsConsistent}
use heis_test.Gossip.System.Acts.{ledger, Newer, logged, merged, known_after, larger_newer}
use heis_test.Gossip.System.Reached.{boots_of, Reach-IsConsistent}

-- The controller that takes the oldest snapshot of the channel.
taken :
    (now : ℕ) (p : Process) (snap : Snapshot) (rest : List Snapshot)
    → p.node.incoming ≡ snap ∷ rest
    → (act now incoming p).controller ≡ handle now (Event.incoming snap) p.controller
unfolding act take_incoming take_from publish handle
taken now p snap rest e = ap (λ xs. (take_from now p xs).controller) e

-- No entry of the key is newer than the cell.
abbrev Covers : List RequestEntry → RequestKey → RequestCell → Type 0
Covers es k x = (e : RequestEntry) → Memᴰ e es → e.key ≡ k → is_newer e.cell x ≡ false

module _ (boots : ℕ → List ℕ) (n : ℕ) (s : System) (fits : n + 6 < 2 ^ 64)
    (h : IsConsistent boots n s) (i : ℕ) (snap : Snapshot)
    (said : Says (IsKnown (ledger boots n s fits h)) snap) where
  merged-Covers :
      (k : RequestKey)
      → let c = (s.processes i).controller in
        Covers snap.requests k (cell (merge_requests c.reqs c.clock snap.requests).0 k)
  merged-Covers k e m same =
      let c = (s.processes i).controller in
      let l = ledger boots n s fits h in
      subst (λ x. is_newer e.cell x ≡ false)
        (sym (cell-merge_requests c.reqs c.clock snap.requests k))
        (join_all_offered (IsKnown l k) (known-IsFamily l k) k _ e snap.requests
          ((h.running i).spoken.cells k)
          (All-map (λ e q same. subst (λ j. IsKnown l j e.cell) same q) snap.requests said) m same)

  -- What the controller has after it took the snapshot: a cell that no entry is newer than, or a
  -- write past the clocks of all entries.
  taken-Logged :
      (now : ℕ)
      → let c = (s.processes i).controller in
        let m = merge_requests c.reqs c.clock snap.requests in
        (w : History) × Logged
          (Covers snap.requests)
          w
          m.1.value
          i
          (boots i)
          (n + 3)
          (handle now (Event.incoming snap) c)
  taken-Logged now =
      let c = (s.processes i).controller in
      let b = merged boots n s fits h i snap said in
      (
        _,
        incoming-IsLogged (Covers snap.requests) _ _ i (boots i) now n snap c (omega arith) (
            IsLogged-rebase (Newer boots n s fits h i) (Covers snap.requests)
              (merge_requests-IsLogged (Newer boots n s fits h i) (h.logs i) c.clock.value i
                (boots i) n c.reqs c.clock snap.requests b.0 b.1 (logged boots n s fits h i))
              merged-Covers),
      )

  act-Covers :
      (now : ℕ) (rest : List Snapshot) (k : RequestKey)
      → (s.processes i).node.incoming ≡ snap ∷ rest
      → Covers snap.requests k (cell (act now incoming (s.processes i)).controller.reqs k)
  act-Covers now rest k e f m same =
      let p = s.processes i in
      let c = p.controller in
      let x = cell (act now incoming p).controller.reqs k in
      let small =
        All-member
          (λ g. g.cell.version.counter ≤ (merge_requests c.reqs c.clock snap.requests).1.value) m
          (merge_requests_clock c.reqs c.clock snap.requests).1 in
      let old =
        subst (λ j. IsKnown (ledger boots n s fits h) j f.cell) same
          (All-member (λ g. IsKnown (ledger boots n s fits h) g.key g.cell) m said) in
      let after = ap (λ (d : Controller). cell d.reqs k) (taken now p snap rest e) in
      elim ((taken-Logged now).1.cells k) [
        | inl q ↦ subst (λ y. is_newer f.cell y ≡ false) (sym after) (q f m same)
        | inr (w, past) ↦
            larger_newer boots n s fits h i now incoming tt k f.cell x old
              (known_after boots n s fits h i now incoming tt k)
              (subst (λ y. f.cell.version.counter < y.version.counter) (sym after)
                (omega (arith, small, past)))
      ]

-- In every state that the elevators can reach together in n steps, with 6 (n + 1) below 2^64, where
-- elevator i has the ID i and has booted once: once an elevator has taken the oldest snapshot from
-- its channel and acted on it, no entry of that snapshot is newer than the elevator's cell for the
-- entry's key.
pub Reach-delivers :
    {cfgs : ℕ → Config} {born : ℕ → ℕ} (named : (i : ℕ) → (cfgs i).elevator_id ≡ i) {n : ℕ}
    {s : System} (fits : 6 * (n + 1) < 2 ^ 64) (r : Reach cfgs born n s) (i now : ℕ)
    (snap : Snapshot) (rest : List Snapshot)
    → (s.processes i).node.incoming ≡ snap ∷ rest
    → All
        (λ e.
          is_newer e.cell (cell (act now incoming (s.processes i)).controller.reqs e.key) ≡ false)
        snap.requests
Reach-delivers {cfgs} {born} named {n} {s} fits r i now snap rest e =
    let small : 6 * n + 6 < 2 ^ 64 = omega arith in
    let h = Reach-IsConsistent cfgs born named (omega arith) r in
    let l = ledger (boots_of cfgs born named) (6 * n) s small h in
    let said = (subst (All (Says (IsKnown l))) e (h.running i).spoken.heard).0 in
    All-map
      (λ f m.
        act-Covers (boots_of cfgs born named) (6 * n) s small h i snap said now rest f.key e f m
          refl)
      snap.requests (All-members snap.requests)
