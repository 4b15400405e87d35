-- ===== src/Gossip/Model/Key.antt =====
-- internal/model/types.go: the keys of requests, and the order that entries are listed in.
use heis_test.Prelude.{
  ℕ, Bool, true, false, List, [], ◌∷◌, Ordering, compare, ◌≡◌, arith, ℕ_discrete,
}
use heis_test.Prelude.Int.{ℤ, compare_ℤ}
use heis_test.Prelude.Compare.{
  then_by, compare_bytes, IsCompare, lex-IsCompare, on-IsCompare, compare-IsCompare,
  compare_ℤ-IsCompare, compare_bytes-IsCompare,
}
use heis_test.Gossip.Model.Kinds.{Direction, direction_int}

pub data RequestKind : Type 0 where
  hall cab : RequestKind

-- The text of a kind: "hall" or "cab".
abbrev pub kind_text : RequestKind → List ℕ
kind_text hall = b'h' ∷ b'a' ∷ b'l' ∷ b'l' ∷ []
kind_text cab = b'c' ∷ b'a' ∷ b'b' ∷ []

abbrev pub is_hall : RequestKind → Bool
is_hall hall = true
is_hall cab = false

pub record RequestKey : Type 0 where
  pub kind : RequestKind
  pub floor : ℤ
  pub direction : Direction
  pub owner_id : ℕ

unfoldable pub RequestKey-discrete : Discrete RequestKey
unfolding ℕ_discrete
RequestKey-discrete = hlevel ℕ_discrete

-- `HallKey`.
abbrev pub hall_key : ℤ → Direction → RequestKey
hall_key floor dir = record { kind = hall; floor = floor; direction = dir; owner_id = 0 }

-- `CabKey`.
abbrev pub cab_key : ℕ → ℤ → RequestKey
cab_key owner floor = record {
  kind = cab;
  floor = floor;
  direction = Direction.stop;
  owner_id = owner;
}

-- `compareKey`.
unfoldable pub compare_key : RequestKey → RequestKey → Ordering
unfolding compare_bytes
compare_key a b = then_by (compare_bytes (kind_text a.kind) (kind_text b.kind)) (
    then_by (compare a.owner_id b.owner_id) (
      then_by (compare_ℤ a.floor b.floor)
        (compare_ℤ (direction_int a.direction) (direction_int b.direction))))

abbrev parts : RequestKey → List ℕ × (ℕ × (ℤ × ℤ))
parts k = (kind_text k.kind, (k.owner_id, (k.floor, direction_int k.direction)))

kind_text-injective : (a b : RequestKind) → kind_text a ≡ kind_text b → a ≡ b
kind_text-injective a b h = ground arith

direction_int-injective : (a b : Direction) → direction_int a ≡ direction_int b → a ≡ b
direction_int-injective a b h = ground arith

parts-injective : (a b : RequestKey) → parts a ≡ parts b → a ≡ b
parts-injective a b h =
    ground
      (arith, kind_text-injective a.kind b.kind, direction_int-injective a.direction b.direction)

pub compare_key-IsCompare : IsCompare compare_key
unfolding compare_key
compare_key-IsCompare = on-IsCompare parts parts-injective (
    lex-IsCompare compare_bytes-IsCompare
      (lex-IsCompare compare-IsCompare (lex-IsCompare compare_ℤ-IsCompare compare_ℤ-IsCompare)))
