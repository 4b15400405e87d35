-- ===== src/Gossip/Model/Table/Lookup.antt =====
-- What can be read from a request table: it is a function from keys to cells.
use heis_test.Prelude.{ℕ, ◌≤◌, ◌≡◌, ap, ite, arith, [], ◌∷◌, none}
use heis_test.Prelude.Assoc
use heis_test.Gossip.Model.Key.{RequestKey, RequestKey-discrete}
use heis_test.Gossip.Model.Table.{
  RequestCell, RequestTable, cell, active, set, max_counter_from, max_counter, larger,
}

pub cell-set :
    (t : RequestTable) (k j : RequestKey) (c : RequestCell)
    → cell (set t k c) j ≡ ite (RequestKey-discrete k j) c (cell t j)
unfolding cell set
cell-set t k j c = ground (arith, Assoc.get?-put RequestKey-discrete k j c t)

pub active-set :
    (t : RequestTable) (k j : RequestKey) (c : RequestCell)
    → active (set t k c) j ≡ ite (RequestKey-discrete k j) c.active (active t j)
unfolding active
active-set t k j c = ground (arith, cell-set t k j c)

-- No key stands in a table twice.
abbrev pub IsTable : RequestTable → Type 0
IsTable = Assoc.Distinct RequestKey-discrete

pub set-IsTable :
    (t : RequestTable) (k : RequestKey) (c : RequestCell) → IsTable t → IsTable (set t k c)
unfolding set
set-IsTable t k c h = Assoc.put-Distinct RequestKey-discrete k c t h

max_counter_from-le : (max : ℕ) (t : RequestTable) → max ≤ max_counter_from max t
unfolding max_counter_from
max_counter_from-le max [] = omega arith
max_counter_from-le max ((k, c) ∷ t) =
    ground (arith, max_counter_from-le (larger max c.version.counter) t)

cell-le-max_from :
    (max : ℕ) (t : RequestTable) (k : RequestKey)
    → (cell t k).version.counter ≤ max_counter_from max t
unfolding max_counter_from cell Assoc.get?
cell-le-max_from max [] k = omega arith
cell-le-max_from max ((j, c) ∷ t) k =
    let max' = larger max c.version.counter in
    ground (arith, cell-le-max_from max' t k, max_counter_from-le max' t)

-- `MaxCounter` bounds the counter of every cell.
pub cell-le-max_counter :
    (t : RequestTable) (k : RequestKey) → (cell t k).version.counter ≤ max_counter t
unfolding max_counter
cell-le-max_counter t k = cell-le-max_from 0 t k

cell-tail :
    (j : RequestKey) (c : RequestCell) (t : RequestTable) (k : RequestKey) (n : ℕ)
    → Assoc.get? RequestKey-discrete j t ≡ none
    → (cell ((j, c) ∷ t) k).version.counter ≤ n
    → (cell t k).version.counter ≤ n
unfolding cell Assoc.get?
cell-tail j c t k n a l = elim (RequestKey-discrete j k) [
  | yes p ↦ ground (arith, ap (λ i. Assoc.get? RequestKey-discrete i t) p)
  | no p ↦ ground arith
]

max_counter_from_below :
    (n max : ℕ) (t : RequestTable)
    → IsTable t
    → max ≤ n
    → ((k : RequestKey) → (cell t k).version.counter ≤ n)
    → max_counter_from max t ≤ n
unfolding max_counter_from cell Assoc.get?
max_counter_from_below n max [] d l h = l
max_counter_from_below n max ((j, c) ∷ t) d l h =
    max_counter_from_below n (larger max c.version.counter) t d.1 (ground (arith, h j))
      (λ k. cell-tail j c t k n d.0 (h k))

-- What bounds the counter of every cell bounds `MaxCounter`.
pub max_counter-le :
    (n : ℕ) (t : RequestTable)
    → IsTable t
    → ((k : RequestKey) → (cell t k).version.counter ≤ n)
    → max_counter t ≤ n
unfolding max_counter
max_counter-le n t d h = max_counter_from_below n 0 t d (omega arith) h
