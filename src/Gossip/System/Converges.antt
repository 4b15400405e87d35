-- ===== src/Gossip/System/Converges.antt =====
-- The fault tolerance that README.md promises, "duplicated, delayed, or reordered packets converge by
-- version order", for elevators that run together (cmd/elevator/main.go, internal/cluster/merge.go).
use heis_test.Prelude.{
  ℕ, ◌*◌, ◌^◌, ◌<◌, ◌≡◌, refl, sym, ap, ◌∙◌, subst, List, [], ◌∷◌, ◌++◌, arith, All, All-append,
  All-map, All-member, member-append, member-append_left, member-append_right, inl, inr,
}
use mathlib.Core.List.{Memᴰ}
use heis_test.Gossip.Model.Key.{RequestKey}
use heis_test.Gossip.Model.Soft.{Snapshot}
use heis_test.Gossip.Model.Clock.{Clock}
use heis_test.Prelude.{Ordering, true}
use heis_test.Prelude.Assoc
use heis_test.Prelude.Compare.{compare_bytes}
use heis_test.Gossip.Model.Version.{compare_version, eq_bytes}
use heis_test.Gossip.Model.Table.{
  zero_cell, new_request_table, RequestCell, RequestEntry, RequestTable, cell,
}
use heis_test.Gossip.Cluster.Merge.{
  is_newer, join, offer, join_all, merge_requests, cell-merge_requests,
}
use heis_test.Gossip.Cluster.Convergence.{IsFamily}
use heis_test.Gossip.Cluster.Same.{Offers, join_all_same_entries}
use heis_test.Gossip.System.Consistent.{ledger_of}
use heis_test.Gossip.Cluster.Exchange.{exchange_agrees, cell-merge_entries}
use heis_test.Gossip.Controller.State.{Config}
use heis_test.Gossip.Controller.Handlers.{snapshot}
use heis_test.Gossip.System.{System, Reach}
use heis_test.Gossip.System.Known.{Ledger, IsKnown, unwritten, written, known-IsFamily}
use heis_test.Gossip.System.Spoken.{Says}
use heis_test.Gossip.System.Reached.{boots_of, Reach-IsConsistent}

-- The table after the snapshots were merged one by one, the first at the head.
unfoldable pub merge_all : RequestTable → Clock → List Snapshot → RequestTable
merge_all t c [] = t
merge_all t c (p ∷ ps) = let m = merge_requests t c p.requests in merge_all m.0 m.1 ps

-- The entries of all of them.
abbrev requests_of : List Snapshot → List RequestEntry
requests_of [] = []
requests_of (p ∷ ps) = p.requests ++ requests_of ps

join_all-append :
    (k : RequestKey) (c : RequestCell) (es fs : List RequestEntry)
    → join_all k c (es ++ fs) ≡ join_all k (join_all k c es) fs
unfolding join_all
join_all-append k c [] fs = refl
join_all-append k c (e ∷ es) fs = join_all-append k (offer k c e) es fs

cell-merge_all :
    (t : RequestTable) (c : Clock) (ps : List Snapshot) (k : RequestKey)
    → cell (merge_all t c ps) k ≡ join_all k (cell t k) (requests_of ps)
unfolding merge_all join_all
cell-merge_all t c [] k = refl
cell-merge_all t c (p ∷ ps) k =
    let m = merge_requests t c p.requests in
    cell-merge_all m.0 m.1 ps k
    ∙ ap (λ d. join_all k d (requests_of ps)) (cell-merge_requests t c p.requests k)
    ∙ sym (join_all-append k (cell t k) p.requests (requests_of ps))

requests_of-member :
    (p : Snapshot) (ps : List Snapshot) (e : RequestEntry)
    → Memᴰ p ps
    → Memᴰ e p.requests
    → Memᴰ e (requests_of ps)
requests_of-member p [] e m n = elim m [ ]
requests_of-member p (q ∷ ps) e (Memᴰ.head x) n =
    member-append_left _ (subst (λ (r : Snapshot). Memᴰ e r.requests) x n)
requests_of-member p (q ∷ ps) e (Memᴰ.tail m) n =
    member-append_right q.requests (requests_of-member p ps e m n)

-- Snapshots among others have their entries among theirs.
requests_of_among :
    (ps qs : List Snapshot)
    → ((p : Snapshot) → Memᴰ p ps → Memᴰ p qs)
    → (e : RequestEntry) → Memᴰ e (requests_of ps)
    → Memᴰ e (requests_of qs)
requests_of_among [] qs h e m = elim m [ ]
requests_of_among (p ∷ ps) qs h e m = elim (member-append p.requests m) [
  | inl n ↦ requests_of-member p qs e (h p (Memᴰ.head refl)) n
  | inr n ↦ requests_of_among ps qs (λ q l. h q (Memᴰ.tail l)) e n
]

Offers-requests_of :
    (P : RequestKey → RequestCell → Type 0) (F : (k : RequestKey) → IsFamily (P k)) (k : RequestKey)
    (sent ps : List Snapshot)
    → All (Says P) sent
    → ((p : Snapshot) → Memᴰ p ps → Memᴰ p sent)
    → Offers (P k) (F k) k (requests_of ps)
Offers-requests_of P F k sent [] h among = tt
Offers-requests_of P F k sent (p ∷ ps) h among =
    All-append _ p.requests (requests_of ps)
      (All-map (λ e q same. subst (λ j. P j e.cell) same q) p.requests
        (All-member (Says P) (among p (Memᴰ.head refl)) h))
      (Offers-requests_of P F k sent ps h (λ q m. among q (Memᴰ.tail m)))

above_nil : (x : ℕ) (xs : List ℕ) → compare_bytes (x ∷ xs) [] ≡ Ordering.gt
unfolding compare_bytes
above_nil x xs = refl

written_newer :
    (c : RequestCell) (boot : List ℕ)
    → c.version.boot_id ≡ boot
    → 0 < c.version.counter
    → is_newer c zero_cell ≡ true
unfolding compare_version eq_bytes
written_newer c [] b positive = ground (arith, b)
written_newer c (x ∷ boot) b positive = ground (arith, b, above_nil x boot)

-- Whatever was written replaces the cell of a missing key.
join-zero : (l : Ledger) (k : RequestKey) (c : RequestCell) → IsKnown l k c → join (cell [] k) c ≡ c
unfolding cell Assoc.get? join
join-zero l k c (unwritten z) = ground (arith, z)
join-zero l k c (written i w) = rw (written_newer c (l.boots i) w.booted w.positive) refl

one_write :
    (l : Ledger) (k k' : RequestKey) (c d : RequestCell)
    → IsKnown l k c
    → IsKnown l k' d
    → 0 < c.version.counter
    → c.version ≡ d.version
    → (k ≡ k') × (c ≡ d)
one_write l k k' c d (unwritten z) _ positive same = absurd (ground arith)
one_write l k k' c d (written i v) (unwritten z) positive same = absurd (ground arith)
one_write l k k' c d (written i v) (written j w) positive same = (
  ground (arith, v.writer, w.writer, v.entry, w.entry),
  ground (arith, v.writer, w.writer, v.entry, w.entry),
)

module _ {cfgs : ℕ → Config} {born : ℕ → ℕ} (named : (i : ℕ) → (cfgs i).elevator_id ≡ i) {n : ℕ}
    {s : System} (fits : 6 * n < 2 ^ 64) (r : Reach cfgs born n s) where
  -- In every state that the elevators can reach together in n steps, with 6 n below 2^64, where
  -- elevator i has the ID i and has booted once: any two of them that each merge the snapshot of
  -- the other's controller hold the same cell for every key.
  pub Reach-exchange :
      (i j : ℕ) (k : RequestKey)
      → let c = (s.processes i).controller in
        let d = (s.processes j).controller in
        cell (merge_requests c.reqs c.clock (snapshot d).requests).0 k
        ≡ cell (merge_requests d.reqs d.clock (snapshot c).requests).0 k
  unfolding snapshot
  Reach-exchange i j k =
      let h = Reach-IsConsistent cfgs born named fits r in
      let l = ledger_of (boots_of cfgs born named) h.logs s in
      exchange_agrees (IsKnown l k) (known-IsFamily l k) _ _ _ _ k (h.running i).table
        (h.running j).table ((h.running i).spoken.cells k) ((h.running j).spoken.cells k)

  -- In every state that the elevators can reach together in n steps, with 6 n below 2^64, where
  -- elevator i has the ID i and has booted once: two elevators, or one, that hold the same cell for
  -- a key and then merge snapshots that were sent, the same ones but in any order, each once or
  -- more often, hold the same cell for the key again.
  pub Reach-converges :
      (i j : ℕ) (k : RequestKey) (ps qs : List Snapshot)
      → let c = (s.processes i).controller in
        let d = (s.processes j).controller in
        cell c.reqs k ≡ cell d.reqs k
        → ((p : Snapshot) → Memᴰ p ps → Memᴰ p s.packets)
        → ((p : Snapshot) → Memᴰ p ps → Memᴰ p qs)
        → ((p : Snapshot) → Memᴰ p qs → Memᴰ p ps)
        → cell (merge_all c.reqs c.clock ps) k ≡ cell (merge_all d.reqs d.clock qs) k
  Reach-converges i j k ps qs agree sent sub sup =
      let h = Reach-IsConsistent cfgs born named fits r in
      let l = ledger_of (boots_of cfgs born named) h.logs s in
      let offers = Offers-requests_of (IsKnown l) (known-IsFamily l) k s.packets in
      cell-merge_all _ _ ps k
      ∙ join_all_same_entries (IsKnown l k) (known-IsFamily l k) k _ (requests_of ps)
          (requests_of qs) ((h.running i).spoken.cells k) (offers ps h.packets sent)
          (offers qs h.packets (λ p m. sent p (sup p m))) (requests_of_among ps qs sub)
          (requests_of_among qs ps sup)
      ∙ ap (λ x. join_all k x (requests_of qs)) agree
      ∙ sym (cell-merge_all _ _ qs k)

  -- In every state that the elevators can reach together in n steps, with 6 n below 2^64, where
  -- elevator i has the ID i and has booted once: if the cells of two keys, in the tables of any two
  -- elevators, have the same version and its counter is positive, the keys are the same and so are
  -- the cells.
  pub Reach-written_once :
      (i j : ℕ) (k k' : RequestKey)
      → let c = cell (s.processes i).controller.reqs k in
        let d = cell (s.processes j).controller.reqs k' in
        0 < c.version.counter → c.version ≡ d.version → (k ≡ k') × (c ≡ d)
  Reach-written_once i j k k' positive same =
      let h = Reach-IsConsistent cfgs born named fits r in
      let l = ledger_of (boots_of cfgs born named) h.logs s in
      one_write l k k' _ _ ((h.running i).spoken.cells k) ((h.running j).spoken.cells k') positive
        same

  -- In every state that the elevators can reach together in n steps, with 6 n below 2^64, where
  -- elevator i has the ID i and has booted once: whoever merges the snapshot of an elevator's
  -- controller into an empty table, with whatever clock, gets that elevator's cell for every key.
  pub Reach-restores :
      (i : ℕ) (c : Clock) (k : RequestKey)
      → let t = (s.processes i).controller in
        cell (merge_requests new_request_table c (snapshot t).requests).0 k ≡ cell t.reqs k
  unfolding snapshot
  Reach-restores i c k =
      let h = Reach-IsConsistent cfgs born named fits r in
      let l = ledger_of (boots_of cfgs born named) h.logs s in
      cell-merge_entries new_request_table _ c k (h.running i).table
      ∙ join-zero l k _ ((h.running i).spoken.cells k)
