-- ===== src/Gossip/System.antt =====
-- The elevators of cmd/elevator/main.go together: each runs by itself, and what one has sent may
-- reach any other, late, out of order, more than once or never.
pub mod Known
pub mod Spoken
pub mod Acted
pub mod Consistent
pub mod Acts
pub mod Reached
pub mod Converges
pub mod Agrees
pub mod Delivers
use heis_test.Prelude.{ℕ, ◌+◌, ◌++◌, List, [], ◌∷◌, ite, ℕ_discrete}
use mathlib.Core.List.{Memᴰ}
use heis_test.Gossip.Model.Soft.{Snapshot}
use heis_test.Gossip.Cluster.Node.{Read, failed, garbled, decoded, send}
use heis_test.Gossip.Controller.State.{Config}
use heis_test.Gossip.Process.{Process, Action, boot, act, read}

-- An elevator for each number, and all that was ever sent.
pub record System : Type 0 where
  pub processes : ℕ → Process
  pub packets : List Snapshot

abbrev pub update {ℓ} : {A : Type ℓ} → (ℕ → A) → ℕ → A → ℕ → A
update f i a j = ite (ℕ_discrete i j) a (f j)

-- A node reads what was sent, or nothing that is a snapshot.
abbrev pub Carried : List Snapshot → Action → Type 0
Carried packets (read (decoded snap)) = Memᴰ snap packets
Carried packets _ = Unit

-- The snapshots that one tick of `send` puts on the wire.
unfoldable pub on_wire : List (ℕ × Snapshot) → List Snapshot
on_wire [] = []
on_wire ((_, snap) ∷ sent) = snap ∷ on_wire sent

pub data Step (s : System) : System → Type 0 where
  acts :
      (i now : ℕ) (a : Action)
      → Carried s.packets a
      → Step s (record s { processes = update s.processes i (act now a (s.processes i)) })
  sends :
      (i : ℕ) (addrs : List ℕ)
      → Step s (record s { packets = on_wire (send addrs (s.processes i).node) ++ s.packets })

-- What `n` steps can lead to, where elevator `i` has booted once, with the configuration `cfgs i`,
-- at `born i`.
pub data Reach (cfgs : ℕ → Config) (born : ℕ → ℕ) : ℕ → System → Type 0 where
  booted : Reach cfgs born 0 (record { processes = λ i. boot (cfgs i) (born i); packets = [] })
  later : {n : ℕ} {s t : System} → Reach cfgs born n s → Step s t → Reach cfgs born (n + 1) t
