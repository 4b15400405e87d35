-- ===== src/Gossip/Mock/Console.antt =====
-- internal/driver/mock/console.go: the commands that drive the simulated car by hand, from the words of
-- a line on. A word is the list of its bytes.
pub mod Commands
use heis_test.Prelude.{
  ℕ, ◌+◌, ◌-◌, ◌*◌, ◌^◌, ◌≤◌, List, [], ◌∷◌, Bool, true, false, not, ◌&&◌, ◌||◌, ◌==◌, Option, none,
  some, ltb, if◌then◌else◌, ◌≡◌, refl, ap, arith, Bool-cases, Option-cases, inl, inr, sym, subst,
  ◌∙◌, ◌↔◌,
}
use heis_test.Prelude.Int.{ℤ, pos, negsuc}
use heis_test.Gossip.Model.Kinds.{Button}
use heis_test.Gossip.Model.Version.{eq_bytes}
use heis_test.Gossip.Driver.{ButtonEvent}

abbrev pub Word : Type 0
Word = List ℕ

-- What a command has the driver do, or writes.
pub data Effect : Type 0 where
  press : ButtonEvent → Effect
  set_obstruction : Bool → Effect
  print_help print_status : Effect

-- The errors of `runCommand` and `floorArg`, and that of `strconv.Atoi`.
pub data CommandError : Type 0 where
  usage_floor usage_obstruction : CommandError
  unknown not_a_number : Word → CommandError

pub data Result {ℓ} (A : Type ℓ) : Type ℓ where
  ok : A → Result A
  failed : CommandError → Result A

abbrev pub bind {ℓ κ} : {A : Type ℓ} {B : Type κ} → Result A → (A → Result B) → Result B
bind (ok a) f = f a
bind (failed e) f = failed e

abbrev is_digit : ℕ → Bool
is_digit b = not (ltb b b'0') && not (ltb b'9' b)

-- The value of decimal digits, of which there is one at least, behind those that were read.
unfoldable pub digits_from : ℕ → Word → Option ℕ
digits_from n [] = some n
digits_from n (b ∷ w) =
    let rest = digits_from (10 * n + (b - b'0')) w in if is_digit b then rest else none

unfoldable pub digits : Word → Option ℕ
digits [] = none
digits (b ∷ w) = digits_from 0 (b ∷ w)

-- A number below the sign, within an int of 64 bits.
abbrev pub positive : Option ℕ → Option ℤ
positive none = none
positive (some n) = if ltb n (2 ^ 63) then some (pos n) else none

abbrev pub negative : Option ℕ → Option ℤ
negative none = none
negative (some n) =
    if n == 0 then some (pos 0) else if ltb (2 ^ 63) n then none else some (negsuc (n - 1))

-- `strconv.Atoi`.
unfoldable pub atoi : Word → Option ℤ
atoi [] = none
atoi (b ∷ w) =
    if b == b'-'
    then negative (digits w)
    else if b == b'+'
    then positive (digits w)
    else positive (digits (b ∷ w))

abbrev pub number : Word → Option ℤ → Result ℤ
number w none = failed (not_a_number w)
number w (some n) = ok n

-- `floorArg`, of the words behind the first.
unfoldable pub floor_arg : List Word → Result ℤ
floor_arg (w ∷ []) = number w (atoi w)
floor_arg [] = failed usage_floor
floor_arg (w ∷ v ∷ ws) = failed usage_floor

abbrev pub help_word : Word
help_word = b'h' ∷ b'e' ∷ b'l' ∷ b'p' ∷ []

abbrev pub cab_word : Word
cab_word = b'c' ∷ b'a' ∷ b'b' ∷ []

abbrev pub hall_up_word : Word
hall_up_word = b'h' ∷ b'a' ∷ b'l' ∷ b'l' ∷ b'-' ∷ b'u' ∷ b'p' ∷ []

abbrev pub hall_down_word : Word
hall_down_word = b'h' ∷ b'a' ∷ b'l' ∷ b'l' ∷ b'-' ∷ b'd' ∷ b'o' ∷ b'w' ∷ b'n' ∷ []

abbrev pub obstruction_word : Word
obstruction_word = b'o' ∷ b'b' ∷ b's' ∷ b't' ∷ b'r' ∷ b'u' ∷ b'c' ∷ b't' ∷ b'i' ∷ b'o' ∷ b'n' ∷ []

abbrev pub status_word : Word
status_word = b's' ∷ b't' ∷ b'a' ∷ b't' ∷ b'u' ∷ b's' ∷ []

abbrev pub on_word : Word
on_word = b'o' ∷ b'n' ∷ []

abbrev pub off_word : Word
off_word = b'o' ∷ b'f' ∷ b'f' ∷ []

-- The cases of the three buttons.
unfoldable pub press_at : Button → List Word → Result Effect
press_at b args = bind (floor_arg args) (λ f. ok (press (record { floor = f; button = b })))

-- The case of the obstruction.
unfoldable pub obstruct : List Word → Result Effect
obstruct (w ∷ []) =
    if not (eq_bytes w on_word) && not (eq_bytes w off_word)
    then failed usage_obstruction
    else ok (set_obstruction (eq_bytes w on_word))
obstruct [] = failed usage_obstruction
obstruct (w ∷ v ∷ ws) = failed usage_obstruction

-- `runCommand`; a line without words is passed over before. The driver does what an effect says, and
-- nothing where there is an error.
unfoldable pub run_command : Word → List Word → Result Effect
run_command w args =
    if eq_bytes w help_word
    then ok print_help
    else if eq_bytes w cab_word
    then press_at Button.cab args
    else if eq_bytes w hall_up_word
    then press_at Button.hall_up args
    else if eq_bytes w hall_down_word
    then press_at Button.hall_down args
    else if eq_bytes w obstruction_word
    then obstruct args
    else if eq_bytes w status_word
    then ok print_status
    else failed (unknown w)
