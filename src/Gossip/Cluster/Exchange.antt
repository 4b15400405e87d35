-- ===== src/Gossip/Cluster/Exchange.antt =====
-- Two nodes that send each other their snapshots agree (internal/cluster/merge.go).
use heis_test.Prelude.{
  ◌≡◌, refl, sym, ◌∙◌, ap, List, [], ◌∷◌, false, if_pos, if_neg, arith, Option, none, some, inl,
  inr, ℕ, ◌⊎◌, Ordering,
}
use heis_test.Prelude.Compare.{compare_bytes}
use heis_test.Prelude.Assoc
use heis_test.Gossip.Model.Version.{compare_version}
use heis_test.Gossip.Model.Key.{RequestKey, RequestKey-discrete}
use heis_test.Gossip.Model.Clock.{Clock}
use heis_test.Gossip.Model.Table.{
  RequestCell, RequestEntry, RequestTable, zero_cell, or_zero, cell, entries,
}
use heis_test.Gossip.Model.Table.Lookup.{IsTable}
use heis_test.Gossip.Model.Table.Entries.{cell_of, Unique, find, entries_of-Unique, find-entries_of}
use heis_test.Gossip.Cluster.Merge.{is_newer, join, join_all, merge_requests, cell-merge_requests}
use heis_test.Gossip.Cluster.Convergence.{IsFamily, join_comm}

abbrev join_option : RequestCell → Option RequestCell → RequestCell
join_option c none = c
join_option c (some d) = join c d

join_all-absent :
    (k : RequestKey) (c : RequestCell) (es : List RequestEntry)
    → find k es ≡ none
    → join_all k c es ≡ c
unfolding join_all find
join_all-absent k c [] h = refl
join_all-absent k c (e ∷ es) h = elim (RequestKey-discrete e.key k) [
  | yes p ↦ absurd (ground arith)
  | no p ↦ rw (if_neg _ p) (join_all-absent k c es (ground arith))
]

-- Of a list with no key twice, only one entry counts for a key.
join_all-find :
    (k : RequestKey) (c : RequestCell) (es : List RequestEntry)
    → Unique es
    → join_all k c es ≡ join_option c (find k es)
unfolding join_all find
join_all-find k c [] u = refl
join_all-find k c (e ∷ es) u = elim (RequestKey-discrete e.key k) [
  | yes p ↦
      rw (if_pos _ p)
        (rw (if_pos _ p) (join_all-absent k (join c e.cell) es (ap (λ j. find j es) (sym p) ∙ u.0)))
  | no p ↦ rw (if_neg _ p) (rw (if_neg _ p) (join_all-find k c es u.1))
]

below_nil :
    (xs : List ℕ) → (compare_bytes [] xs ≡ Ordering.eq) ⊎ (compare_bytes [] xs ≡ Ordering.lt)
unfolding compare_bytes
below_nil [] = inl refl
below_nil (x ∷ xs) = inr refl

-- The cell of a missing key is older than all.
zero_oldest : (c : RequestCell) → is_newer zero_cell c ≡ false
unfolding compare_version
zero_oldest c = ground (arith, below_nil c.version.boot_id)

join_option-cell : (c : RequestCell) (o : Option RequestCell) → join_option c o ≡ join c (or_zero o)
unfolding join
join_option-cell c none = rw (zero_oldest c)
join_option-cell c (some d) = refl

cell_of-false : (o : Option RequestCell) → cell_of false o ≡ o
cell_of-false none = refl
cell_of-false (some c) = refl

-- To merge a snapshot of a table is to join the tables cell by cell.
pub cell-merge_entries :
    (t s : RequestTable) (c : Clock) (k : RequestKey)
    → IsTable s
    → cell (merge_requests t c (entries s)).0 k ≡ join (cell t k) (cell s k)
unfolding entries cell
cell-merge_entries t s c k d =
    cell-merge_requests t c (entries s) k
    ∙ join_all-find k (cell t k) (entries s) (entries_of-Unique false s d)
    ∙ ap (join_option (cell t k)) (find-entries_of false s k d)
    ∙ ap (join_option (cell t k)) (cell_of-false (Assoc.get? RequestKey-discrete k s))
    ∙ join_option-cell (cell t k) (Assoc.get? RequestKey-discrete k s)

-- Two nodes that have each merged the other's snapshot hold the same cell for a key: for all clocks
-- and all tables without repeated keys whose cells for that key belong to one family of cells, in
-- which any two versions are coherent (the later boot of a writer has no smaller counter) and two
-- cells of the same version are the same cell.
pub exchange_agrees :
    (P : RequestCell → Type 0)
    → IsFamily P
    → (t s : RequestTable) (c d : Clock) (k : RequestKey) → IsTable t
    → IsTable s
    → P (cell t k)
    → P (cell s k)
    → cell (merge_requests t c (entries s)).0 k ≡ cell (merge_requests s d (entries t)).0 k
exchange_agrees P F t s c d k ht hs pt ps =
    cell-merge_entries t s c k hs
    ∙ join_comm P F (cell t k) (cell s k) pt ps
    ∙ sym (cell-merge_entries s t d k ht)
