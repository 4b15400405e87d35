-- ===== src/Gossip/Assigner.antt =====
-- internal/assigner/assigner.go.
pub mod Best
pub mod Agreement
use heis_test.Prelude.{
  ℕ, ◌+◌, ◌*◌, List, [], ◌∷◌, Bool, true, false, not, ◌&&◌, ◌||◌, ◌==◌, if◌then◌else◌, compare,
  Ordering, map, ltb,
}
use heis_test.Prelude.Int.{ℤ, pos, ◌-ℤ◌, abs, ltb_ℤ, eq_ℤ}
use heis_test.Prelude.Assoc
use heis_test.Prelude.Sort
use heis_test.Gossip.Model.Kinds.{Direction, Behavior, eq_direction}
use heis_test.Gossip.Model.Key.{RequestKey, RequestKey-discrete, is_hall}
use heis_test.Gossip.Model.Table.{RequestEntry, RequestTable, active_entries}
use heis_test.Gossip.Model.Soft.{SoftState}

-- `dirTo`.
unfoldable pub dir_to : ℤ → ℤ → Direction
dir_to from to =
    if ltb_ℤ from to then Direction.up else if ltb_ℤ to from then Direction.down else Direction.stop

-- The `switch` of `cost`, from the value of `n` before it.
unfoldable pub cost_of : Behavior → SoftState → RequestKey → ℕ → ℤ
cost_of Behavior.idle state key n = pos n
cost_of Behavior.moving state key n =
    let dir = dir_to state.floor key.floor in
    let n' =
      if not (eq_direction dir Direction.stop) && not (eq_direction dir state.direction)
      then n + 3
      else n in
    pos (
      if not (eq_direction key.direction Direction.stop)
        && not (eq_direction key.direction state.direction)
      then n' + 1
      else n')
cost_of Behavior.door_open state key n =
    if eq_ℤ state.floor key.floor then pos n -ℤ pos 1 else pos (n + 2)
cost_of Behavior.stuck state key n = pos (n + 10_000)

-- `cost`.
unfoldable pub cost : SoftState → RequestKey → ℤ
cost state key = cost_of state.behavior state key (abs (state.floor -ℤ key.floor) * 4)

-- `c < bestCost || c == bestCost && state.ID < bestID`.
abbrev pub is_better : ℤ → ℕ → ℤ → ℕ → Bool
is_better c id best_cost best_id = ltb_ℤ c best_cost || eq_ℤ c best_cost && ltb id best_id

-- The loop over the states for one entry: the best ID and its cost so far.
unfoldable pub best_from : RequestKey → ℕ → ℤ → List SoftState → ℕ
best_from key best_id best_cost [] = best_id
best_from key best_id best_cost (state ∷ states) =
    let c = cost state key in
    let better = is_better c state.id best_cost best_id in
    best_from key (if better then state.id else best_id) (if better then c else best_cost) states

-- The elevator that one entry is given to, of the states in order; there is at least one.
unfoldable pub best_of : RequestKey → List SoftState → ℕ
best_of key [] = 0
best_of key (s ∷ states) = best_from key s.id (cost s key) states

abbrev pub Assignments : Type 0
Assignments = List (RequestKey × ℕ)

-- The loop over the entries, with the map `out` so far.
unfoldable pub assign_from : List SoftState → Assignments → List RequestEntry → Assignments
assign_from states out [] = out
assign_from states out (e ∷ es) =
    assign_from states
      (if not (is_hall e.key.kind)
        then out
        else Assoc.put RequestKey-discrete e.key (best_of e.key states) out)
      es

abbrev pub compare_id : SoftState → SoftState → Ordering
compare_id a b = compare a.id b.id

-- `Assign`.
unfoldable pub assign : RequestTable → List SoftState → Assignments
assign table [] = []
assign table (s ∷ states) =
    assign_from (Sort.sort compare_id (s ∷ states)) [] (active_entries table)
