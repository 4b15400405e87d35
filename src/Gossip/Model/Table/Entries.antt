-- ===== src/Gossip/Model/Table/Entries.antt =====
-- The entries of a table, `entries` of internal/model/types.go: each cell once, in the order of the
-- keys, whatever order the map was iterated in.
use heis_test.Prelude.{
  ◌≡◌, refl, sym, ◌∙◌, ap, ite, if_neg, Bool, false, not, ◌&&◌, arith, List, [], ◌∷◌, All, Option,
  none, some, Bool-cases, if◌then◌else◌, Ordering, inl, inr,
}
use heis_test.Prelude.Assoc
use heis_test.Prelude.Sort
use heis_test.Prelude.Compare.{not_gt_trans, is_gt}
use heis_test.Gossip.Model.Key.{RequestKey, RequestKey-discrete, compare_key, compare_key-IsCompare}
use heis_test.Gossip.Model.Table.{
  RequestCell, RequestEntry, RequestTable, collect, compare_entry, entries_of,
}
use heis_test.Gossip.Model.Table.Lookup.{IsTable}

-- The cell that a list of entries gives to a key.
unfoldable pub find : RequestKey → List RequestEntry → Option RequestCell
find k [] = none
find k (e ∷ es) = ite (RequestKey-discrete e.key k) (some e.cell) (find k es)

abbrev pub Unique : List RequestEntry → Type 0
Unique [] = Unit
Unique (e ∷ es) = (find e.key es ≡ none) × Unique es

abbrev pub cell_of : Bool → Option RequestCell → Option RequestCell
cell_of active_only none = none
cell_of active_only (some c) = if active_only && not c.active then none else some c

find-collect :
    (b : Bool) (k : RequestKey) (t : RequestTable)
    → IsTable t
    → find k (collect b t) ≡ cell_of b (Assoc.get? RequestKey-discrete k t)
unfolding find collect Assoc.get?
find-collect b k [] d = refl
find-collect b k ((j, c) ∷ t) d = elim (RequestKey-discrete j k) [
  | yes p ↦ ground (arith, find-collect b k t d.1, find-collect b j t d.1)
  | no p ↦ ground (arith, find-collect b k t d.1)
]

collect-Unique : (b : Bool) (t : RequestTable) → IsTable t → Unique (collect b t)
unfolding collect
collect-Unique b [] d = tt
collect-Unique b ((j, c) ∷ t) d = elim (Bool-cases (b && not c.active)) [
  | inl e ↦ rw e (collect-Unique b t d.1)
  | inr e ↦ rw e (ground (arith, find-collect b j t d.1), collect-Unique b t d.1)
]

find-insert :
    (k : RequestKey) (e : RequestEntry) (es : List RequestEntry)
    → find e.key es ≡ none
    → find k (Sort.insert compare_entry e es) ≡ find k (e ∷ es)
unfolding find Sort.insert
find-insert k e [] u = refl
find-insert k e (f ∷ es) u = ground (arith, find-insert k e es)

insert-Unique :
    (e : RequestEntry) (es : List RequestEntry)
    → find e.key es ≡ none
    → Unique es
    → Unique (Sort.insert compare_entry e es)
unfolding find Sort.insert
insert-Unique e [] u d = (refl, tt)
insert-Unique e (f ∷ es) u d = elim (Bool-cases (is_gt (compare_entry e f))) [
  | inl g ↦ rw g (ground (arith, find-insert f.key e es), insert-Unique e es (ground arith) d.1)
  | inr g ↦ rw g (u, d)
]

find-sort :
    (k : RequestKey) (es : List RequestEntry)
    → Unique es
    → find k (Sort.sort compare_entry es) ≡ find k es
unfolding find Sort.sort
find-sort k [] u = refl
find-sort k (e ∷ es) u = ground (
  arith,
  find-insert k e (Sort.sort compare_entry es),
  find-sort e.key es u.1,
  find-sort k es u.1,
)

sort-Unique : (es : List RequestEntry) → Unique es → Unique (Sort.sort compare_entry es)
unfolding Sort.sort
sort-Unique [] u = tt
sort-Unique (e ∷ es) u =
    insert-Unique e (Sort.sort compare_entry es) (find-sort e.key es u.1 ∙ u.0) (sort-Unique es u.1)

-- A key below the head of a sorted list does not stand in it.
find_below :
    (k : RequestKey) (e : RequestEntry) (es : List RequestEntry)
    → compare_key k e.key ≡ Ordering.lt
    → All (λ f. is_gt (compare_entry e f) ≡ false) es
    → find k es ≡ none
unfolding find
find_below k e [] p h = refl
find_below k e (f ∷ es) p h = elim (RequestKey-discrete f.key k) [
  | yes q ↦
      absurd (ground (arith, compare_key-IsCompare.flips k e.key, ap (compare_key e.key) q, h.0))
  | no q ↦ rw (if_neg _ q) (find_below k e es p h.1)
]

module _ (e f : RequestEntry) (es fs : List RequestEntry)
    (s : All (λ g. is_gt (compare_entry e g) ≡ false) es)
    (t : All (λ g. is_gt (compare_entry f g) ≡ false) fs)
    (h : (k : RequestKey) → find k (e ∷ es) ≡ find k (f ∷ fs)) where
  heads_agree : e.key ≡ f.key
  unfolding find
  heads_agree = ground (
    arith,
    h e.key,
    h f.key,
    find_below e.key f fs,
    find_below f.key e es,
    compare_key-IsCompare.flips e.key f.key,
    compare_key-IsCompare.eq_sound e.key f.key,
    compare_key-IsCompare.self e.key,
  )

  tails_agree :
      e.key ≡ f.key
      → find e.key es ≡ none
      → find f.key fs ≡ none
      → (k : RequestKey) → find k es ≡ find k fs
  unfolding find
  tails_agree q u v k = ground (arith, h k)

  cells_agree : e.key ≡ f.key → e.cell ≡ f.cell
  unfolding find
  cells_agree q = ground (arith, h e.key)

-- Sorted lists without repeated keys that read alike are one list.
sorted_ext :
    (es fs : List RequestEntry)
    → Sort.IsSorted compare_entry es
    → Sort.IsSorted compare_entry fs
    → Unique es
    → Unique fs
    → ((k : RequestKey) → find k es ≡ find k fs)
    → es ≡ fs
unfolding find
sorted_ext [] [] s t u v h = refl
sorted_ext [] (f ∷ fs) s t u v h = absurd (ground (arith, h f.key))
sorted_ext (e ∷ es) [] s t u v h = absurd (ground (arith, h e.key))
sorted_ext (e ∷ es) (f ∷ fs) s t u v h =
    let q = heads_agree e f es fs s.0 t.0 h in
    let c = cells_agree e f es fs s.0 t.0 h q in
    let rest = sorted_ext es fs s.1 t.1 u.1 v.1 (tails_agree e f es fs s.0 t.0 h q u.0 v.0) in
    ground arith

sort-IsSorted : (es : List RequestEntry) → Sort.IsSorted compare_entry (Sort.sort compare_entry es)
sort-IsSorted =
    Sort.sort-IsSorted compare_entry (λ e f. compare_key-IsCompare.flips e.key f.key)
      (λ e f g. not_gt_trans compare_key-IsCompare e.key f.key g.key)

-- What a listing gives to a key is the cell of the table, if it is listed.
pub find-entries_of :
    (b : Bool) (t : RequestTable) (k : RequestKey)
    → IsTable t
    → find k (entries_of b t) ≡ cell_of b (Assoc.get? RequestKey-discrete k t)
unfolding entries_of
find-entries_of b t k d = find-sort k (collect b t) (collect-Unique b t d) ∙ find-collect b k t d

pub entries_of-Unique : (b : Bool) (t : RequestTable) → IsTable t → Unique (entries_of b t)
unfolding entries_of
entries_of-Unique b t d = sort-Unique (collect b t) (collect-Unique b t d)

-- Two tables without repeated keys that have the same cell for each key, or none, list the same
-- entries in the same order, whatever order their maps are iterated in.
pub entries_of_ext :
    (b : Bool) (t s : RequestTable)
    → IsTable t
    → IsTable s
    → ((k : RequestKey) → Assoc.get? RequestKey-discrete k t ≡ Assoc.get? RequestKey-discrete k s)
    → entries_of b t ≡ entries_of b s
unfolding entries_of
entries_of_ext b t s dt ds h =
    sorted_ext _ _ (sort-IsSorted (collect b t)) (sort-IsSorted (collect b s))
      (sort-Unique _ (collect-Unique b t dt)) (sort-Unique _ (collect-Unique b s ds))
      (λ k. find-entries_of b t k dt ∙ ap (cell_of b) (h k) ∙ sym (find-entries_of b s k ds))
