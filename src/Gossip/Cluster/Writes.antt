-- ===== src/Gossip/Cluster/Writes.antt =====
-- The writes of a process as a log, and what a merge does to what was written (internal/model/types.go,
-- internal/cluster/merge.go).
use heis_test.Prelude.{
  ℕ, ◌≤◌, ◌<◌, ◌≡◌, refl, sym, ◌∙◌, subst, List, [], ◌∷◌, Bool, false, ite, inl, inr, arith,
  Bool-cases, All, ℕ_discrete, if_pos, if_neg, ◌||◌,
}
use heis_test.Gossip.Model.Key.{RequestKey, RequestKey-discrete}
use heis_test.Gossip.Model.Clock.{Clock, observe}
use heis_test.Gossip.Model.Table.{RequestCell, RequestEntry, RequestTable, cell}
use heis_test.Gossip.Cluster.Merge.{
  is_newer, join, join_all, merge_from, merge_entry, merge_requests, cell-merge_requests,
}

-- What a writer has written: for each counter the key and the value.
abbrev pub History : Type 0
History = ℕ → RequestKey × Bool

abbrev pub write : History → ℕ → RequestKey × Bool → History
write w n x m = ite (ℕ_discrete n m) x (w m)

-- A write of the writer `id` with a counter up to `hi`.
pub record IsWrite (id : ℕ) (boot : List ℕ) (w : History) (hi : ℕ) (k : RequestKey)
    (c : RequestCell) : Type 0 where
  pub writer : c.version.writer_id ≡ id
  pub booted : c.version.boot_id ≡ boot
  pub le : c.version.counter ≤ hi
  pub positive : 0 < c.version.counter
  pub entry : w c.version.counter ≡ (k, c.active)

pub IsWrite-le :
    {id : ℕ} {boot : List ℕ} {w : History} {hi hi' : ℕ} {k : RequestKey} {c : RequestCell}
    → hi ≤ hi'
    → IsWrite id boot w hi k c
    → IsWrite id boot w hi' k c
IsWrite-le l h = record {
  writer = h.writer;
  booted = h.booted;
  le = omega (arith, h.le);
  positive = h.positive;
  entry = h.entry;
}

-- The cell of a key after a merge is the old one or that of an entry.
module _ (P : RequestKey → RequestCell → Type 0) where
  join_member : (k : RequestKey) (a b : RequestCell) → P k a → P k b → P k (join a b)
  unfolding join
  join_member k a b pa pb = elim (Bool-cases (is_newer b a)) [ inl e ↦ rw e pb | inr e ↦ rw e pa ]

  join_all_member :
      (k : RequestKey) (c : RequestCell) (es : List RequestEntry)
      → P k c
      → All (λ e. P e.key e.cell) es
      → P k (join_all k c es)
  unfolding join_all
  join_all_member k c [] pc h = pc
  join_all_member k c (e ∷ es) pc h = elim (RequestKey-discrete e.key k) [
    | yes p ↦ rw (if_pos _ p) (
        join_all_member k (join c e.cell) es
          (join_member k c e.cell pc (subst (λ j. P j e.cell) p h.0)) h.1)
    | no p ↦ rw (if_neg _ p) (join_all_member k c es pc h.1)
  ]

  pub merge_requests_member :
      (t : RequestTable) (c : Clock) (es : List RequestEntry) (k : RequestKey)
      → P k (cell t k)
      → All (λ e. P e.key e.cell) es
      → P k (cell (merge_requests t c es).0 k)
  merge_requests_member t c es k pc h =
      subst (P k) (sym (cell-merge_requests t c es k)) (join_all_member k (cell t k) es pc h)

-- A merge leaves the clock at its own value or at the counter of an entry.
merge_from_below :
    (n : ℕ) (b : Bool) (t : RequestTable) (c : Clock) (es : List RequestEntry)
    → c.value ≤ n
    → All (λ e. e.cell.version.counter ≤ n) es
    → (merge_from b t c es).1.value ≤ n
unfolding merge_from observe
merge_from_below n b t c [] l h = l
merge_from_below n b t c (e ∷ es) l h =
    merge_from_below n (b || is_newer e.cell (cell t e.key)) (merge_entry t e)
      (observe e.cell.version c) es (ground (arith, h.0)) h.1

merge_from_writer :
    (b : Bool) (t : RequestTable) (c : Clock) (es : List RequestEntry)
    → ((merge_from b t c es).1.writer ≡ c.writer) × ((merge_from b t c es).1.boot ≡ c.boot)
unfolding merge_from observe
merge_from_writer b t c [] = (refl, refl)
merge_from_writer b t c (e ∷ es) =
    let h =
      merge_from_writer (b || is_newer e.cell (cell t e.key)) (merge_entry t e)
        (observe e.cell.version c) es in
    (h.0 ∙ ground arith, h.1 ∙ ground arith)

pub merge_requests_below :
    (n : ℕ) (t : RequestTable) (c : Clock) (es : List RequestEntry)
    → c.value ≤ n
    → All (λ e. e.cell.version.counter ≤ n) es
    → (merge_requests t c es).1.value ≤ n
unfolding merge_requests
merge_requests_below n t c es l h = merge_from_below n false t c es l h

pub merge_requests_writer :
    (t : RequestTable) (c : Clock) (es : List RequestEntry)
    → ((merge_requests t c es).1.writer ≡ c.writer) × ((merge_requests t c es).1.boot ≡ c.boot)
unfolding merge_requests
merge_requests_writer t c es = merge_from_writer false t c es
