-- ===== src/Gossip/Cluster/Merge.antt =====
-- internal/cluster/merge.go.
use heis_test.Prelude.{
  ◌≡◌, refl, Bool, false, ◌||◌, List, [], ◌∷◌, if◌then◌else◌, ite, arith, ◌≤◌, Bool-cases, inl, inr,
  ◌∙◌, ap, All,
}
use heis_test.Prelude.Compare.{is_gt}
use heis_test.Gossip.Model.Version.{Version, compare_version}
use heis_test.Gossip.Model.Key.{RequestKey, RequestKey-discrete}
use heis_test.Gossip.Model.Clock.{Clock, observe}
use heis_test.Gossip.Model.Table.{RequestCell, RequestEntry, RequestTable, cell, set}
use heis_test.Gossip.Model.Table.Lookup.{cell-set, IsTable, set-IsTable}

-- `model.CompareVersion(entry.Cell.Version, table.Cell(entry.Key).Version) > 0`.
abbrev pub is_newer : RequestCell → RequestCell → Bool
is_newer c d = is_gt (compare_version c.version d.version)

-- The write that the loop of `MergeRequests` makes for one entry.
unfoldable pub merge_entry : RequestTable → RequestEntry → RequestTable
merge_entry table e = if is_newer e.cell (cell table e.key) then set table e.key e.cell else table

-- The loop of `MergeRequests`, from the value of `changed` so far.
unfoldable pub merge_from :
    Bool → RequestTable → Clock → List RequestEntry → RequestTable × Clock × Bool
merge_from changed table clock [] = (table, clock, changed)
merge_from changed table clock (e ∷ es) =
    merge_from (changed || is_newer e.cell (cell table e.key)) (merge_entry table e)
      (observe e.cell.version clock) es

-- `MergeRequests`: the table and the clock after the call, and its result.
unfoldable pub merge_requests :
    RequestTable → Clock → List RequestEntry → RequestTable × Clock × Bool
merge_requests = merge_from false

-- The newer of two cells, the first if neither is.
unfoldable pub join : RequestCell → RequestCell → RequestCell
join c d = if is_newer d c then d else c

-- What one entry makes of the cell of a key.
abbrev pub offer : RequestKey → RequestCell → RequestEntry → RequestCell
offer k c e = ite (RequestKey-discrete e.key k) (join c e.cell) c

-- What a list of entries makes of the cell of one key.
unfoldable pub join_all : RequestKey → RequestCell → List RequestEntry → RequestCell
join_all k c [] = c
join_all k c (e ∷ es) = join_all k (offer k c e) es

cell-merge_entry :
    (t : RequestTable) (e : RequestEntry) (k : RequestKey)
    → cell (merge_entry t e) k
      ≡ ite (RequestKey-discrete e.key k) (join (cell t k) e.cell) (cell t k)
unfolding join merge_entry
cell-merge_entry t e k = ground (arith, cell-set t e.key k e.cell)

cell-merge_from :
    (b : Bool) (t : RequestTable) (c : Clock) (es : List RequestEntry) (k : RequestKey)
    → cell (merge_from b t c es).0 k ≡ join_all k (cell t k) es
unfolding merge_from join_all
cell-merge_from b t c [] k = refl
cell-merge_from b t c (e ∷ es) k =
    cell-merge_from (b || is_newer e.cell (cell t e.key)) (merge_entry t e)
      (observe e.cell.version c) es k
    ∙ ap (λ d. join_all k d es) (cell-merge_entry t e k)

-- After a merge, the cell of a key is what remains when the entries of that key are taken one after
-- the other and a cell gives way to a newer one; entries of other keys and the clock do not matter.
pub cell-merge_requests :
    (t : RequestTable) (c : Clock) (es : List RequestEntry) (k : RequestKey)
    → cell (merge_requests t c es).0 k ≡ join_all k (cell t k) es
unfolding merge_requests
cell-merge_requests t c es k = cell-merge_from false t c es k

merge_entry-IsTable : (t : RequestTable) (e : RequestEntry) → IsTable t → IsTable (merge_entry t e)
unfolding merge_entry
merge_entry-IsTable t e h = elim (Bool-cases (is_newer e.cell (cell t e.key))) [
  | inl n ↦ rw n (set-IsTable t e.key e.cell h)
  | inr n ↦ rw n h
]

merge_from-IsTable :
    (b : Bool) (t : RequestTable) (c : Clock) (es : List RequestEntry)
    → IsTable t
    → IsTable (merge_from b t c es).0
unfolding merge_from
merge_from-IsTable b t c [] h = h
merge_from-IsTable b t c (e ∷ es) h =
    merge_from-IsTable (b || is_newer e.cell (cell t e.key)) (merge_entry t e)
      (observe e.cell.version c) es (merge_entry-IsTable t e h)

pub merge_requests-IsTable :
    (t : RequestTable) (c : Clock) (es : List RequestEntry)
    → IsTable t
    → IsTable (merge_requests t c es).0
unfolding merge_requests
merge_requests-IsTable t c es h = merge_from-IsTable false t c es h

-- The result never falls back to `false`.
merge_from_keeps :
    (b : Bool) (t : RequestTable) (c : Clock) (es : List RequestEntry)
    → (merge_from b t c es).2 ≡ false
    → b ≡ false
unfolding merge_from
merge_from_keeps b t c [] h = h
merge_from_keeps b t c (e ∷ es) h = ground (
  arith,
  merge_from_keeps (b || is_newer e.cell (cell t e.key)) (merge_entry t e)
      (observe e.cell.version c) es h,
)

merge_from-false :
    (b : Bool) (t : RequestTable) (c : Clock) (es : List RequestEntry)
    → (merge_from b t c es).2 ≡ false
    → (merge_from b t c es).0 ≡ t
unfolding merge_from merge_entry
merge_from-false b t c [] h = refl
merge_from-false b t c (e ∷ es) h =
    let b' = b || is_newer e.cell (cell t e.key) in
    let c' = observe e.cell.version c in
    merge_from-false b' (merge_entry t e) c' es h
    ∙ ground (arith, merge_from_keeps b' (merge_entry t e) c' es h)

-- A merge that reports no change has left the table as it was.
pub merge_requests-false :
    (t : RequestTable) (c : Clock) (es : List RequestEntry)
    → (merge_requests t c es).2 ≡ false
    → (merge_requests t c es).0 ≡ t
unfolding merge_requests
merge_requests-false t c es h = merge_from-false false t c es h

observe-le :
    (v : Version) (c : Clock) → (c.value ≤ (observe v c).value) × (v.counter ≤ (observe v c).value)
unfolding observe
observe-le v c = ground arith

-- The counters of all entries are observed.
merge_from_clock :
    (b : Bool) (t : RequestTable) (c : Clock) (es : List RequestEntry)
    → (c.value ≤ (merge_from b t c es).1.value)
      × All (λ e. e.cell.version.counter ≤ (merge_from b t c es).1.value) es
unfolding merge_from
merge_from_clock b t c [] = (omega arith, tt)
merge_from_clock b t c (e ∷ es) =
    let rest =
      merge_from_clock (b || is_newer e.cell (cell t e.key)) (merge_entry t e)
        (observe e.cell.version c) es in
    let seen = observe-le e.cell.version c in (omega arith, (omega arith, rest.1))

-- After a merge the clock is not below what it was, nor below the counter of any entry that was
-- merged.
pub merge_requests_clock :
    (t : RequestTable) (c : Clock) (es : List RequestEntry)
    → (c.value ≤ (merge_requests t c es).1.value)
      × All (λ e. e.cell.version.counter ≤ (merge_requests t c es).1.value) es
unfolding merge_requests
merge_requests_clock t c es = merge_from_clock false t c es
