-- ===== src/Prelude/Strict.antt =====
-- Lists in strictly ascending order: what sorting makes of a list without repetitions, and nothing
-- else that has the same members.
use Prim.Native.Nat.{Ordering}
use mathlib.Core.Path.{◌≡◌, refl, sym}
use mathlib.Core.List.{List, [], ◌∷◌, Permᴰ, Memᴰ}
use mathlib.Core.List.Permᴰ
use mathlib.Core.Logic.{◌≢◌, inl, inr}
use native.Mathlib.Omega.{arith}
use heis_test.Prelude.Tests.{Bool-cases}
use heis_test.Prelude.Lists.{All, All-map, All-member, All-Permᴰ}
use heis_test.Prelude.Compare.{IsCompare, is_gt}
use heis_test.Prelude.Sort

pub All-members {ℓ} : {A : Type ℓ} (xs : List A) → All (λ x. Memᴰ x xs) xs
All-members [] = tt
All-members (x ∷ xs) = (Memᴰ.head refl, All-map (λ y m. Memᴰ.tail m) xs (All-members xs))

pub member-Permᴰ {ℓ} : {A : Type ℓ} {x : A} {xs ys : List A} → Permᴰ xs ys → Memᴰ x ys → Memᴰ x xs
member-Permᴰ {xs} d m =
    All-member (λ y. Memᴰ y xs) m (All-Permᴰ (λ y. Memᴰ y xs) d (All-members xs))

-- No member twice.
abbrev pub Unrepeated {ℓ} : {A : Type ℓ} → List A → Type ℓ
Unrepeated [] = Unit
Unrepeated (x ∷ xs) = All (λ y. x ≢ y) xs × Unrepeated xs

module _ {ℓ} {A : Type ℓ} (cmp : A → A → Ordering) (laws : IsCompare cmp) where
  abbrev pub IsStrict : List A → Type ℓ
  IsStrict [] = Unit
  IsStrict (x ∷ xs) = All (λ y. cmp x y ≡ Ordering.lt) xs × IsStrict xs

  insert-IsStrict :
      (x : A) (xs : List A) → All (λ y. x ≢ y) xs → IsStrict xs → IsStrict (Sort.insert cmp x xs)
  unfolding Sort.insert
  insert-IsStrict x [] n s = (tt, tt)
  insert-IsStrict x (y ∷ ys) n s = elim (Bool-cases (is_gt (cmp x y))) [
    | inl e ↦ rw e (
      Sort.insert-All cmp (λ z. cmp y z ≡ Ordering.lt) x ys (ground (arith, laws.flips x y)) s.0,
      insert-IsStrict x ys n.1 s.1,
    )
    | inr e ↦
        let below : cmp x y ≡ Ordering.lt = ground (arith, laws.eq_sound x y, n.0) in
        rw e ((below, All-map (λ z. laws.lt_trans x y z below) ys s.0), s)
  ]

  pub sort-IsStrict : (xs : List A) → Unrepeated xs → IsStrict (Sort.sort cmp xs)
  unfolding Sort.sort
  sort-IsStrict [] u = tt
  sort-IsStrict (x ∷ xs) u =
      insert-IsStrict x (Sort.sort cmp xs) (Sort.sort-All cmp (λ y. x ≢ y) xs u.0)
        (sort-IsStrict xs u.1)

  strict_heads :
      (x y : A) (xs ys : List A)
      → IsStrict (x ∷ xs)
      → IsStrict (y ∷ ys)
      → Memᴰ x (y ∷ ys)
      → Memᴰ y (x ∷ xs)
      → x ≡ y
  strict_heads x y xs ys s t (Memᴰ.head e) n = e
  strict_heads x y xs ys s t (Memᴰ.tail m) (Memᴰ.head e) = sym e
  strict_heads x y xs ys s t (Memᴰ.tail m) (Memᴰ.tail n) =
      let up = All-member (λ z. cmp y z ≡ Ordering.lt) m t.0 in
      let down = All-member (λ z. cmp x z ≡ Ordering.lt) n s.0 in
      absurd (ground (arith, laws.flips x y))

  strict_tails :
      (x y z : A) (xs ys : List A)
      → x ≡ y
      → IsStrict (x ∷ xs)
      → Memᴰ z xs
      → Memᴰ z (y ∷ ys)
      → Memᴰ z ys
  strict_tails x y z xs ys e s m (Memᴰ.head q) =
      let below = All-member (λ z. cmp x z ≡ Ordering.lt) m s.0 in
      absurd (ground (arith, laws.self x))
  strict_tails x y z xs ys e s m (Memᴰ.tail n) = n

  pub strict_ext :
      (xs ys : List A)
      → IsStrict xs
      → IsStrict ys
      → ((z : A) → Memᴰ z xs → Memᴰ z ys)
      → ((z : A) → Memᴰ z ys → Memᴰ z xs)
      → xs ≡ ys
  strict_ext [] [] s t h k = refl
  strict_ext [] (y ∷ ys) s t h k = elim (k y (Memᴰ.head refl)) [ ]
  strict_ext (x ∷ xs) [] s t h k = elim (h x (Memᴰ.head refl)) [ ]
  strict_ext (x ∷ xs) (y ∷ ys) s t h k =
      let e = strict_heads x y xs ys s t (h x (Memᴰ.head refl)) (k y (Memᴰ.head refl)) in
      let rest =
        strict_ext xs ys s.1 t.1 (λ z m. strict_tails x y z xs ys e s m (h z (Memᴰ.tail m)))
          (λ z m. strict_tails y x z ys xs (sym e) t m (k z (Memᴰ.tail m))) in
      cc

  -- Sorting forgets the order: lists with the same members, each once, sort to one list.
  pub sort_ext :
      (xs ys : List A)
      → Unrepeated xs
      → Unrepeated ys
      → ((z : A) → Memᴰ z xs → Memᴰ z ys)
      → ((z : A) → Memᴰ z ys → Memᴰ z xs)
      → Sort.sort cmp xs ≡ Sort.sort cmp ys
  sort_ext xs ys u v h k =
      strict_ext (Sort.sort cmp xs) (Sort.sort cmp ys) (sort-IsStrict xs u) (sort-IsStrict ys v)
        (λ z m.
          member-Permᴰ (Sort.sort-Permᴰ cmp ys)
            (h z (member-Permᴰ (Permᴰ.symm (Sort.sort-Permᴰ cmp xs)) m)))
        (λ z m.
          member-Permᴰ (Sort.sort-Permᴰ cmp xs)
            (k z (member-Permᴰ (Permᴰ.symm (Sort.sort-Permᴰ cmp ys)) m)))
