-- ===== src/Gossip/Model/Soft.antt =====
-- internal/model/types.go: what a node says of itself, and the snapshot that it sends.
use heis_test.Prelude.{ℕ, List, Bool, ℕ_discrete}
use heis_test.Prelude.Int.{ℤ}
use heis_test.Gossip.Model.Kinds.{Direction, Behavior}
use heis_test.Gossip.Model.Table.{RequestEntry}

pub record SoftState : Type 0 where
  pub id : ℕ
  pub boot_id : List ℕ
  pub floor : ℤ
  pub direction : Direction
  pub behavior : Behavior
  pub door_open : Bool
  pub obstruction : Bool

-- `==` on soft states, as a decision.
unfoldable pub SoftState-discrete : Discrete SoftState
unfolding ℕ_discrete
SoftState-discrete = hlevel ℕ_discrete

pub record Snapshot : Type 0 where
  pub soft : SoftState
  pub requests : List RequestEntry
