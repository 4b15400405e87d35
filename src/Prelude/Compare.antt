-- ===== src/Prelude/Compare.antt =====
-- Three-way comparisons as the code makes them (`cmp.Compare` and chains of it), with their laws:
-- a comparison is a decidable total order. Laws are built up by lexicographic chains and by keys.
use Prim.Native.Nat.{ℕ, compare, Ordering}
use mathlib.Core.Path.{◌≡◌, refl}
use mathlib.Core.Bool.{Bool, true, false}
use mathlib.Core.List.{List, [], ◌∷◌}
use native.Mathlib.Omega.{arith}
use heis_test.Prelude.Int.{compare_ℤ, eq_of_parts}

abbrev pub flip : Ordering → Ordering
flip Ordering.lt = Ordering.gt
flip Ordering.eq = Ordering.eq
flip Ordering.gt = Ordering.lt

-- `if d := cmp.Compare(x, y); d != 0 { return d }`, then the next comparison.
abbrev pub then_by : Ordering → Ordering → Ordering
then_by Ordering.lt d = Ordering.lt
then_by Ordering.eq d = d
then_by Ordering.gt d = Ordering.gt

abbrev pub is_gt : Ordering → Bool
is_gt Ordering.gt = true
is_gt _ = false

abbrev pub is_lt : Ordering → Bool
is_lt Ordering.lt = true
is_lt _ = false

pub record IsCompare {ℓ} {A : Type ℓ} (cmp : A → A → Ordering) : Type ℓ where
  pub eq_sound : (a b : A) → cmp a b ≡ Ordering.eq → a ≡ b
  pub self : (a : A) → cmp a a ≡ Ordering.eq
  pub flips : (a b : A) → cmp b a ≡ flip (cmp a b)
  pub lt_trans : (a b c : A) → cmp a b ≡ Ordering.lt → cmp b c ≡ Ordering.lt → cmp a c ≡ Ordering.lt

-- `cmp x y ≤ 0` is transitive.
pub not_gt_trans {ℓ} :
    {A : Type ℓ} {cmp : A → A → Ordering} (h : IsCompare cmp) (x y z : A)
    → is_gt (cmp x y) ≡ false
    → is_gt (cmp y z) ≡ false
    → is_gt (cmp x z) ≡ false
not_gt_trans h x y z p q =
    ground (arith, h.eq_sound x y, h.eq_sound y z, h.lt_trans x y z, h.self x)

pub compare-IsCompare : IsCompare compare
compare-IsCompare = record {
  eq_sound = λ a b h. ground arith;
  self = λ a. ground arith;
  flips = λ a b. ground arith;
  lt_trans = λ a b c h k. ground arith;
}

pub compare_ℤ-IsCompare : IsCompare compare_ℤ
compare_ℤ-IsCompare = record {
  eq_sound = λ a b h. eq_of_parts a b (ground arith);
  self = λ a. ground arith;
  flips = λ a b. ground arith;
  lt_trans = λ a b c h k. ground arith;
}

-- The first component decides, and the second where the first are equal.
abbrev pub lex {ℓ κ} :
    {A : Type ℓ} {B : Type κ} → (A → A → Ordering) → (B → B → Ordering) → A × B → A × B → Ordering
lex c d (a, x) (b, y) = then_by (c a b) (d x y)

module _ {ℓ κ} {A : Type ℓ} {B : Type κ} {c : A → A → Ordering} {d : B → B → Ordering}
    (hc : IsCompare c) (hd : IsCompare d) where
  lex-eq : (p q : A × B) → lex c d p q ≡ Ordering.eq → p ≡ q
  lex-eq (a, x) (b, y) h = ground (arith, hc.eq_sound a b, hd.eq_sound x y)

  lex-flips : (p q : A × B) → lex c d q p ≡ flip (lex c d p q)
  lex-flips (a, x) (b, y) = ground (arith, hc.flips a b, hd.flips x y)

  lex-lt_trans :
      (p q r : A × B)
      → lex c d p q ≡ Ordering.lt
      → lex c d q r ≡ Ordering.lt
      → lex c d p r ≡ Ordering.lt
  lex-lt_trans (a, x) (b, y) (e, z) h k =
      ground (arith, hc.eq_sound a b, hc.eq_sound b e, hc.lt_trans a b e, hd.lt_trans x y z)

  pub lex-IsCompare : IsCompare (lex c d)
  lex-IsCompare = record {
    eq_sound = lex-eq;
    self = λ p. ground (arith, hc.self p.0, hd.self p.1);
    flips = lex-flips;
    lt_trans = lex-lt_trans;
  }

-- A comparison of keys, where the key determines the value.
pub on-IsCompare {ℓ κ} :
    {A : Type ℓ} {B : Type κ} {c : B → B → Ordering} (f : A → B)
    → ((a b : A) → f a ≡ f b → a ≡ b)
    → IsCompare c
    → IsCompare (λ (a b : A). c (f a) (f b))
on-IsCompare f inj h = record {
  eq_sound = λ a b e. inj a b (h.eq_sound (f a) (f b) e);
  self = λ a. h.self (f a);
  flips = λ a b. h.flips (f a) (f b);
  lt_trans = λ a b c p q. h.lt_trans (f a) (f b) (f c) p q;
}

-- Texts are compared byte by byte, a proper prefix first: a text is the list of its bytes.
unfoldable pub compare_bytes : List ℕ → List ℕ → Ordering
compare_bytes [] [] = Ordering.eq
compare_bytes [] (y ∷ ys) = Ordering.lt
compare_bytes (x ∷ xs) [] = Ordering.gt
compare_bytes (x ∷ xs) (y ∷ ys) = then_by (compare x y) (compare_bytes xs ys)

bytes-eq : (xs ys : List ℕ) → compare_bytes xs ys ≡ Ordering.eq → xs ≡ ys
unfolding compare_bytes
bytes-eq [] [] h = refl
bytes-eq [] (y ∷ ys) h = cc
bytes-eq (x ∷ xs) [] h = cc
bytes-eq (x ∷ xs) (y ∷ ys) h = ground (arith, bytes-eq xs ys)

bytes_self : (xs : List ℕ) → compare_bytes xs xs ≡ Ordering.eq
unfolding compare_bytes
bytes_self [] = refl
bytes_self (x ∷ xs) = ground (arith, bytes_self xs)

bytes-flips : (xs ys : List ℕ) → compare_bytes ys xs ≡ flip (compare_bytes xs ys)
unfolding compare_bytes
bytes-flips [] [] = refl
bytes-flips [] (y ∷ ys) = refl
bytes-flips (x ∷ xs) [] = refl
bytes-flips (x ∷ xs) (y ∷ ys) = ground (arith, bytes-flips xs ys)

bytes-lt_trans :
    (xs ys zs : List ℕ)
    → compare_bytes xs ys ≡ Ordering.lt
    → compare_bytes ys zs ≡ Ordering.lt
    → compare_bytes xs zs ≡ Ordering.lt
unfolding compare_bytes
bytes-lt_trans [] ys [] h k = ground arith
bytes-lt_trans [] ys (z ∷ zs) h k = refl
bytes-lt_trans (x ∷ xs) [] zs h k = cc
bytes-lt_trans (x ∷ xs) (y ∷ ys) [] h k = cc
bytes-lt_trans (x ∷ xs) (y ∷ ys) (z ∷ zs) h k = ground (arith, bytes-lt_trans xs ys zs)

pub compare_bytes-IsCompare : IsCompare compare_bytes
compare_bytes-IsCompare = record {
  eq_sound = bytes-eq;
  self = bytes_self;
  flips = bytes-flips;
  lt_trans = bytes-lt_trans;
}
