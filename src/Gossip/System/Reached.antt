-- ===== src/Gossip/System/Reached.antt =====
-- What every state that the elevators reach together satisfies, as long as no clock has wrapped
-- (cmd/elevator/main.go).
use heis_test.Gossip.Cluster.Merge.{is_newer}
use heis_test.Gossip.Model.Key.{RequestKey}
use heis_test.Gossip.System.{Step}
use heis_test.Prelude.{◌+◌, ℕ, ◌*◌, ◌^◌, ◌<◌, ◌≡◌, refl, List, [], arith}
use heis_test.Gossip.Model.Table.{cell}
use heis_test.Gossip.Cluster.Node.{start, set_local}
use heis_test.Gossip.Controller.Handlers.{snapshot}
use heis_test.Gossip.Model.Table.{entries, entries_of, collect}
use heis_test.Prelude.Sort
use heis_test.Prelude.Assoc
use heis_test.Gossip.Model.Clock.{new_clock}
use heis_test.Prelude.{false}
use heis_test.Prelude.Int.{pos}
use heis_test.Gossip.Model.Key.{hall}
use heis_test.Gossip.Model.Kinds.{Direction}
use heis_test.Gossip.Controller.State.{Config, new, new_with, with_defaults, sync}
use heis_test.Gossip.Process.{boot, publish}
use heis_test.Gossip.System.{System, acts, sends, Reach, booted, later}
use heis_test.Gossip.System.Known.{unwritten}
use heis_test.Gossip.System.Acts.{acts-IsConsistent, acts_newer, not_newer_self}
use heis_test.Gossip.System.Consistent.{IsConsistent, IsConsistent-le, sends-IsConsistent}

module _ (cfgs : ℕ → Config) (born : ℕ → ℕ) (named : (i : ℕ) → (cfgs i).elevator_id ≡ i) where
  abbrev pub boots_of : ℕ → List ℕ
  boots_of i = (cfgs i).boot_id

  booted-IsConsistent :
      IsConsistent boots_of 0 (record { processes = λ i. boot (cfgs i) (born i); packets = [] })
  unfolding Assoc.get? cell new_clock boot publish set_local snapshot start new new_with
      with_defaults sync entries entries_of collect Sort.sort
  booted-IsConsistent = record {
    logs = λ i n.
        (record { kind = hall; floor = pos 0; direction = Direction.stop; owner_id = 0 }, false);
    small = λ i. omega arith;
    running = λ i. record {
      writer = named i;
      booted = refl;
      seen = λ k. omega arith;
      table = tt;
      spoken = record { cells = λ k. unwritten refl; heard = tt; said = tt };
    };
    packets = tt;
  }

  pub Reach-IsConsistent :
      {n : ℕ} {s : System} → 6 * n < 2 ^ 64 → Reach cfgs born n s → IsConsistent boots_of (6 * n) s
  Reach-IsConsistent fits booted = booted-IsConsistent
  Reach-IsConsistent fits (later {n} {s} r (acts i now a c)) = IsConsistent-le (omega arith) (
      acts-IsConsistent boots_of (6 * n) s (omega arith) (Reach-IsConsistent (omega arith) r) i now
        a c)
  Reach-IsConsistent fits (later {n} {s} r (sends i addrs)) =
      IsConsistent-le (omega arith)
        (sends-IsConsistent boots_of (6 * n) s i addrs (Reach-IsConsistent (omega arith) r))

  -- In every state that the elevators can reach together in n steps, with 6 (n + 1) below 2^64,
  -- where elevator i has the ID i and has booted once: whatever happens next, no elevator's cell
  -- for any key becomes older, the cell before the step is not newer than the one after it.
  pub Step-never_older :
      {n : ℕ} {s t : System}
      → 6 * (n + 1) < 2 ^ 64
      → Reach cfgs born n s
      → Step s t
      → (j : ℕ) (k : RequestKey)
      → is_newer (cell (s.processes j).controller.reqs k) (cell (t.processes j).controller.reqs k)
        ≡ false
  Step-never_older {n} {s} fits r (acts i now a c) j k =
      acts_newer boots_of (6 * n) s (omega arith) (Reach-IsConsistent (omega arith) r) i now a c j k
  Step-never_older {n} {s} fits r (sends i addrs) j k =
      not_newer_self boots_of (6 * n) s (omega arith) (Reach-IsConsistent (omega arith) r) j k
