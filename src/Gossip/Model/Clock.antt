-- ===== src/Gossip/Model/Clock.antt =====
-- internal/model/types.go: the Lamport clock of a process.
use heis_test.Prelude.{ℕ, List, ◌+◌, ◌%◌, ◌^◌, ltb, if◌then◌else◌}
use heis_test.Gossip.Model.Version.{Version}

pub record Clock : Type 0 where
  pub value : ℕ  -- uint64
  pub writer : ℕ
  pub boot : List ℕ

-- `NewClock`.
unfoldable pub new_clock : ℕ → List ℕ → Clock
new_clock writer boot = record { value = 0; writer = writer; boot = boot }

-- Arithmetic on uint64 wraps.
abbrev pub u64 : ℕ → ℕ
u64 n = n % 2 ^ 64

-- `Next`: the clock after the call, and the version that it gives.
unfoldable pub next : Clock → Clock × Version
next c =
    let value' = u64 (c.value + 1) in
    (
      record c { value = value' },
      record { counter = value'; writer_id = c.writer; boot_id = c.boot },
    )

-- `Observe`.
unfoldable pub observe : Version → Clock → Clock
observe v c = if ltb c.value v.counter then record c { value = v.counter } else c

-- `Seed`.
unfoldable pub seed : ℕ → Clock → Clock
seed n c = if ltb c.value n then record c { value = n } else c
