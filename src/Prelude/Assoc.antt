-- ===== src/Prelude/Assoc.antt =====
-- A Go map as an association list with at most one entry for a key. Its iteration order is the
-- list's order, which no result may depend on.
use mathlib.Core.Path.{◌≡◌, refl}
use mathlib.Core.Logic.{ite, if_pos, if_neg}
use mathlib.Core.List.{List, [], ◌∷◌}
use mathlib.Core.Option.{Option, none, some}
use native.Mathlib.Omega.{arith}

module _ {ℓ} {K V : Type ℓ} (dec : Discrete K) where
  -- `v, ok := m[k]`
  unfoldable pub get? : K → List (K × V) → Option V
  get? k [] = none
  get? k ((j, v) ∷ m) = ite (dec j k) (some v) (get? k m)

  -- `m[k] = v`
  unfoldable pub put : K → V → List (K × V) → List (K × V)
  put k v [] = (k, v) ∷ []
  put k v ((j, w) ∷ m) = ite (dec j k) ((k, v) ∷ m) ((j, w) ∷ put k v m)

  -- `delete(m, k)`
  unfoldable pub delete : K → List (K × V) → List (K × V)
  delete k [] = []
  delete k ((j, w) ∷ m) = let rest = delete k m in ite (dec j k) rest ((j, w) ∷ rest)

  -- No key twice: what a map holds by its nature.
  abbrev pub Distinct : List (K × V) → Type ℓ
  Distinct [] = Unit
  Distinct ((k, v) ∷ m) = (get? k m ≡ none) × Distinct m

  pub get?-put :
      (k j : K) (v : V) (m : List (K × V)) → get? j (put k v m) ≡ ite (dec k j) (some v) (get? j m)
  unfolding get? put
  get?-put k j v [] = refl
  get?-put k j v ((i, w) ∷ m) = ground (arith, get?-put k j v m)

  pub get?-delete :
      (k j : K) (m : List (K × V)) → get? j (delete k m) ≡ ite (dec k j) none (get? j m)
  unfolding get? delete
  get?-delete k j [] = ground arith
  get?-delete k j ((i, w) ∷ m) = ground (arith, get?-delete k j m)

  pub put-Distinct : (k : K) (v : V) (m : List (K × V)) → Distinct m → Distinct (put k v m)
  unfolding get? put
  put-Distinct k v [] d = (refl, tt)
  put-Distinct k v ((j, w) ∷ m) d = elim (dec j k) [
    | yes p ↦ rw (if_pos _ p) (ground arith, d.1)
    | no p ↦ rw (if_neg _ p) (ground (arith, get?-put k j v m), put-Distinct k v m d.1)
  ]

  pub delete-Distinct : (k : K) (m : List (K × V)) → Distinct m → Distinct (delete k m)
  unfolding delete
  delete-Distinct k [] d = d
  delete-Distinct k ((j, w) ∷ m) d = elim (dec j k) [
    | yes p ↦ rw (if_pos _ p) (delete-Distinct k m d.1)
    | no p ↦ rw (if_neg _ p) (ground (arith, get?-delete k j m), delete-Distinct k m d.1)
  ]
