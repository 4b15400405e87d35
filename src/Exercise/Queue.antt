-- ===== src/Exercise/Queue.antt =====
-- Exercise5-master/messagepassing/request.go: the priority queue.
use heis_test.Prelude.{
  ◌≡◌, refl, ap, ◌∙◌, List, [], ◌∷◌, ◌++◌, Bool, true, false, Option, none, some, if◌then◌else◌,
  Bool-cases, inl, inr, arith, Ordering, All,
}
use heis_test.Prelude.Sort
use heis_test.Prelude.Compare.{is_gt, is_lt, not_gt_trans, compare_ℤ-IsCompare}
use heis_test.Prelude.Int.{ℤ, compare_ℤ}

pub record Item {ℓ} (A : Type ℓ) : Type ℓ where
  pub val : A
  pub priority : ℤ

module _ {ℓ} {A : Type ℓ} where
  -- The comparison of `Insert`: the higher priority comes first.
  abbrev pub by_priority : Item A → Item A → Ordering
  by_priority a b = compare_ℤ b.priority a.priority

  -- `Insert`: to the end, and then a stable sort, here by insertion.
  unfoldable pub insert : A → ℤ → List (Item A) → List (Item A)
  insert value priority queue =
      Sort.sort by_priority (queue ++ record { val = value; priority = priority } ∷ [])

  -- `Front` and `PopFront`, which index the empty slice out of range, and `Empty`.
  unfoldable pub front : List (Item A) → Option A
  front [] = none
  front (i ∷ queue) = some i.val

  unfoldable pub pop_front : List (Item A) → Option (List (Item A))
  pop_front [] = none
  pop_front (i ∷ queue) = some queue

  unfoldable pub empty : List (Item A) → Bool
  empty [] = true
  empty (i ∷ queue) = false

  -- What is to be: behind all that are as urgent, before all that are less urgent.
  unfoldable pub enqueue : Item A → List (Item A) → List (Item A)
  enqueue x [] = x ∷ []
  enqueue x (y ∷ ys) = if is_lt (by_priority x y) then x ∷ y ∷ ys else y ∷ enqueue x ys

  abbrev pub IsQueue : List (Item A) → Type ℓ
  IsQueue = Sort.IsSorted by_priority

  insert-head :
      (x : Item A) (xs : List (Item A))
      → All (λ y. is_gt (by_priority x y) ≡ false) xs
      → Sort.insert by_priority x xs ≡ x ∷ xs
  unfolding Sort.insert
  insert-head x [] h = refl
  insert-head x (y ∷ ys) h = ground (arith, h.0)

  enqueue-All {κ} :
      (P : Item A → Type κ) (x : Item A) (xs : List (Item A))
      → P x
      → All P xs
      → All P (enqueue x xs)
  unfolding enqueue
  enqueue-All P x [] hx h = (hx, tt)
  enqueue-All P x (y ∷ ys) hx h = elim (Bool-cases (is_lt (by_priority x y))) [
    | inl e ↦ rw e (hx, h)
    | inr e ↦ rw e (h.0, enqueue-All P x ys hx h.1)
  ]

  -- An item that is more urgent than the first goes to the front.
  enqueue_urgent :
      (x : Item A) (xs : List (Item A))
      → All (λ y. is_lt (by_priority x y) ≡ true) xs
      → enqueue x xs ≡ x ∷ xs
  unfolding enqueue
  enqueue_urgent x [] h = refl
  enqueue_urgent x (y ∷ ys) h = rw h.0 refl

  less_urgent :
      (x y : Item A) (zs : List (Item A))
      → is_lt (by_priority x y) ≡ true
      → All (λ z. is_gt (by_priority y z) ≡ false) zs
      → All (λ z. is_lt (by_priority x z) ≡ true) zs
  less_urgent x y [] h a = tt
  less_urgent x y (z ∷ zs) h a = (
    ground (
      arith,
      compare_ℤ-IsCompare.eq_sound z.priority y.priority,
      compare_ℤ-IsCompare.flips y.priority x.priority,
      compare_ℤ-IsCompare.flips z.priority y.priority,
      compare_ℤ-IsCompare.flips z.priority x.priority,
      compare_ℤ-IsCompare.lt_trans z.priority y.priority x.priority,
      a.0,
    ),
    less_urgent x y zs h a.1,
  )

  -- An insertion sort leaves a sorted queue as it is, and brings its last item into place.
  sort-snoc :
      (x : Item A) (xs : List (Item A))
      → IsQueue xs
      → Sort.sort by_priority (xs ++ x ∷ []) ≡ enqueue x xs
  unfolding Sort.sort Sort.insert enqueue
  sort-snoc x [] s = refl
  sort-snoc x (y ∷ ys) s =
      ap (Sort.insert by_priority y) (sort-snoc x ys s.1)
      ∙ elim (Bool-cases (is_lt (by_priority x y))) [
        | inl e ↦
            let behind : is_gt (by_priority y x) ≡ true =
              ground (arith, compare_ℤ-IsCompare.flips x.priority y.priority) in
            rw e (
              ap (Sort.insert by_priority y) (enqueue_urgent x ys (less_urgent x y ys e s.0))
              ∙ rw behind (ap (x ∷◌) (insert-head y ys s.0)))
        | inr e ↦
            let before : is_gt (by_priority y x) ≡ false =
              ground (arith, compare_ℤ-IsCompare.flips x.priority y.priority) in
            rw e (
              insert-head y (enqueue x ys)
                (enqueue-All (λ z. is_gt (by_priority y z) ≡ false) x ys before s.0))
      ]

  -- `Insert` into a queue that is in order puts the item behind all that are at least as urgent and
  -- before all that are less urgent.
  pub insert-enqueue :
      (value : A) (priority : ℤ) (queue : List (Item A))
      → IsQueue queue
      → insert value priority queue ≡ enqueue (record { val = value; priority = priority }) queue
  unfolding insert
  insert-enqueue value priority queue s = sort-snoc _ queue s

  -- `Insert` leaves a sorted queue, whatever it got.
  pub insert-IsQueue :
      (value : A) (priority : ℤ) (queue : List (Item A)) → IsQueue (insert value priority queue)
  unfolding insert
  insert-IsQueue value priority queue =
      Sort.sort-IsSorted by_priority (λ a b. compare_ℤ-IsCompare.flips b.priority a.priority)
        (λ a b c p q. not_gt_trans compare_ℤ-IsCompare c.priority b.priority a.priority q p) _
