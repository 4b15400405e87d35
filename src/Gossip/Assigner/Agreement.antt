-- ===== src/Gossip/Assigner/Agreement.antt =====
-- What the assigner writes into its map, and why all nodes agree (internal/assigner/assigner.go).
use heis_test.Prelude.{
  ℕ, ◌≡◌, refl, ◌∙◌, ap, sym, List, [], ◌∷◌, Bool, true, false, not, ◌&&◌, All, arith, All-Permᴰ,
  Bool-cases, inl, inr, if◌then◌else◌, Option, none, some, subst,
}
use mathlib.Core.List.{Memᴰ}
use heis_test.Prelude.Assoc
use heis_test.Prelude.Sort
use heis_test.Prelude.Compare.{is_gt}
use heis_test.Prelude.Int.{ℤ}
use heis_test.Gossip.Model.Key.{RequestKey, RequestKey-discrete, is_hall}
use heis_test.Gossip.Model.Table.{
  RequestCell, RequestEntry, RequestTable, cell, active, active_entries, or_zero,
}
use heis_test.Gossip.Model.Table.Lookup.{IsTable}
use heis_test.Gossip.Model.Table.Entries.{find, find-entries_of, cell_of}
use heis_test.Gossip.Model.Soft.{SoftState}
use heis_test.Gossip.Assigner.{best_of, assign_from, assign, Assignments, compare_id}
use heis_test.Gossip.Assigner.Best.{
  compare_bid, compare_bid-IsCompare, IsLowest, Bids, bid, best_of-IsLowest, lowest-le, Bids-Permᴰ,
}

abbrev is_listed : Option RequestCell → Bool
is_listed none = false
is_listed (some _) = true

-- The loop of `Assign` gives the hall keys among the entries their best ID.
get?-assign_from :
    (states : List SoftState) (out : Assignments) (es : List RequestEntry) (k : RequestKey)
    → Assoc.get? RequestKey-discrete k (assign_from states out es) ≡ (
        if is_hall k.kind && is_listed (find k es)
        then some (best_of k states)
        else Assoc.get? RequestKey-discrete k out)
unfolding assign_from find
get?-assign_from states out [] k = ground arith
get?-assign_from states out (e ∷ es) k =
    let out' =
      if not (is_hall e.key.kind)
      then out
      else Assoc.put RequestKey-discrete e.key (best_of e.key states) out in
    ground (
      arith,
      get?-assign_from states out' es k,
      Assoc.get?-put RequestKey-discrete e.key k (best_of e.key states) out,
    )

is_listed-cell_of : (o : Option RequestCell) → is_listed (cell_of true o) ≡ (or_zero o).active
is_listed-cell_of none = refl
is_listed-cell_of (some c) = ground arith

is_listed-active :
    (t : RequestTable) (k : RequestKey)
    → IsTable t
    → is_listed (find k (active_entries t)) ≡ active t k
unfolding active_entries active cell
is_listed-active t k h =
    ap is_listed (find-entries_of true t k h)
    ∙ is_listed-cell_of (Assoc.get? RequestKey-discrete k t)

-- The map of `Assign`: the active hall requests, each with the best elevator; no other key.
pub get?-assign :
    (t : RequestTable) (s : SoftState) (states : List SoftState) (k : RequestKey)
    → IsTable t
    → Assoc.get? RequestKey-discrete k (assign t (s ∷ states)) ≡ (
        if is_hall k.kind && active t k
        then some (best_of k (Sort.sort compare_id (s ∷ states)))
        else none)
unfolding assign Assoc.get?
get?-assign t s states k h =
    get?-assign_from (Sort.sort compare_id (s ∷ states)) [] (active_entries t) k
    ∙ ap
        (λ b.
          if is_hall k.kind && b
          then some (best_of k (Sort.sort compare_id (s ∷ states)))
          else none)
        (is_listed-active t k h)

pub sorted-IsLowest :
    (key : RequestKey) (b : ℤ × ℕ) (states : List SoftState)
    → IsLowest key b (Sort.sort compare_id states)
    → IsLowest key b states
sorted-IsLowest key b states h =
    All-Permᴰ (λ s. is_gt (compare_bid b (bid key s)) ≡ false) (Sort.sort-Permᴰ compare_id states) h

pub insert-cons :
    (s : SoftState) (states : List SoftState)
    → (x : SoftState) × (xs : List SoftState) × (Sort.insert compare_id s states ≡ x ∷ xs)
unfolding Sort.insert
insert-cons s [] = (s, [], refl)
insert-cons s (x ∷ xs) = elim (Bool-cases (is_gt (compare_id s x))) [
  | inl e ↦ (x, Sort.insert compare_id s xs, rw e)
  | inr e ↦ (s, x ∷ xs, rw e)
]

best_of_sorted-IsLowest :
    (key : RequestKey) (s : SoftState) (states : List SoftState)
    → (b : ℤ × ℕ) × (b.1 ≡ best_of key (Sort.sort compare_id (s ∷ states)))
      × IsLowest key b (s ∷ states)
      × Bids key b (s ∷ states)
unfolding Sort.sort
best_of_sorted-IsLowest key s states =
    let (x, xs, e) = insert-cons s (Sort.sort compare_id states) in
    let (b, f, low, bids) = best_of-IsLowest key x xs in
    (
      b,
      f ∙ ap (best_of key) (sym e),
      sorted-IsLowest key b (s ∷ states) (subst (IsLowest key b) (sym e) low),
      Bids-Permᴰ key b (Sort.sort-Permᴰ compare_id (s ∷ states)) (subst (Bids key b) (sym e) bids),
    )

-- Each active hall request of a table without repeated keys is given to an elevator of the list,
-- and this elevator's bid, its cost and then its ID, is the lowest of all bids.
pub assign-IsLowest :
    (t : RequestTable) (s : SoftState) (states : List SoftState) (k : RequestKey)
    → IsTable t
    → is_hall k.kind ≡ true
    → active t k ≡ true
    → (b : ℤ × ℕ) × (Assoc.get? RequestKey-discrete k (assign t (s ∷ states)) ≡ some b.1)
      × IsLowest k b (s ∷ states)
      × Bids k b (s ∷ states)
assign-IsLowest t s states k h hall act =
    let (b, e, low, bids) = best_of_sorted-IsLowest k s states in
    (b, get?-assign t s states k h ∙ ground arith, low, bids)

-- Every state of the first list stands in the second.
abbrev pub Includes : List SoftState → List SoftState → Type 0
Includes xs ys = All (λ s. Memᴰ s ys) xs

lowest-member :
    (key : RequestKey) (b : ℤ × ℕ) {s : SoftState} {ys : List SoftState}
    → Memᴰ s ys
    → IsLowest key b ys
    → is_gt (compare_bid b (bid key s)) ≡ false
lowest-member key b (Memᴰ.head e) low = ap (λ x. is_gt (compare_bid b (bid key x))) e ∙ low.0
lowest-member key b (Memᴰ.tail m) low = lowest-member key b m low.1

IsLowest-Includes :
    (key : RequestKey) (b : ℤ × ℕ) (xs ys : List SoftState)
    → Includes xs ys
    → IsLowest key b ys
    → IsLowest key b xs
IsLowest-Includes key b [] ys h low = tt
IsLowest-Includes key b (s ∷ xs) ys h low =
    (lowest-member key b h.0 low, IsLowest-Includes key b xs ys h.1 low)

best_of-le :
    (key : RequestKey) (s r : SoftState) (xs ys : List SoftState) (a b : ℤ × ℕ)
    → Includes (r ∷ ys) (s ∷ xs)
    → IsLowest key a (s ∷ xs)
    → Bids key b (r ∷ ys)
    → is_gt (compare_bid a b) ≡ false
best_of-le key s r xs ys a b inc low bids =
    lowest-le key a b (r ∷ ys) (IsLowest-Includes key a (r ∷ ys) (s ∷ xs) inc low) bids

not_gt_both :
    (a b : ℤ × ℕ) → is_gt (compare_bid a b) ≡ false → is_gt (compare_bid b a) ≡ false → a ≡ b
not_gt_both a b p q =
    compare_bid-IsCompare.eq_sound a b (ground (arith, compare_bid-IsCompare.flips a b))

best_of_agrees :
    (key : RequestKey) (s r : SoftState) (xs ys : List SoftState)
    → Includes (s ∷ xs) (r ∷ ys)
    → Includes (r ∷ ys) (s ∷ xs)
    → best_of key (Sort.sort compare_id (s ∷ xs)) ≡ best_of key (Sort.sort compare_id (r ∷ ys))
best_of_agrees key s r xs ys there back =
    let (a, e, low_a, bids_a) = best_of_sorted-IsLowest key s xs in
    let (b, f, low_b, bids_b) = best_of_sorted-IsLowest key r ys in
    let same =
      not_gt_both a b (best_of-le key s r xs ys a b back low_a bids_b)
        (best_of-le key r s ys xs b a there low_b bids_a) in
    sym e ∙ ap (λ x. x.1) same ∙ f

-- Two nodes whose lists of states have the same members and whose tables, without repeated keys,
-- agree on whether a request is active give it to the same elevator, or both to none, in whatever
-- order they hold states and requests.
pub assign_agrees :
    (t u : RequestTable) (s r : SoftState) (xs ys : List SoftState) (k : RequestKey)
    → IsTable t
    → IsTable u
    → active t k ≡ active u k
    → Includes (s ∷ xs) (r ∷ ys)
    → Includes (r ∷ ys) (s ∷ xs)
    → Assoc.get? RequestKey-discrete k (assign t (s ∷ xs))
      ≡ Assoc.get? RequestKey-discrete k (assign u (r ∷ ys))
assign_agrees t u s r xs ys k ht hu act there back =
    let same = best_of_agrees k s r xs ys there back in
    get?-assign t s xs k ht ∙ ground arith ∙ sym (get?-assign u r ys k hu)
