-- ===== src/Gossip/System/Acted.antt =====
-- What an action of a process leaves behind (cmd/elevator/main.go).
use heis_test.Prelude.{
  ℕ, ◌⊎◌, ◌+◌, ◌^◌, ◌<◌, subst, List, [], ◌∷◌, arith, All, All-map, All-append, inl, inr,
}
use heis_test.Gossip.Model.Key.{RequestKey}
use heis_test.Gossip.Model.Soft.{Snapshot}
use heis_test.Gossip.Model.Table.{cell, RequestCell}
use heis_test.Gossip.Cluster.Writes.{History, IsWrite}
use heis_test.Gossip.Cluster.Node.{set_local}
use heis_test.Gossip.Controller.Handlers.{snapshot}
use heis_test.Gossip.Controller.Logged.{Logged, IsLogged-le}
use heis_test.Gossip.Controller.Logged.Steps.{Brought, handle-IsLogged}
use heis_test.Gossip.Controller.State.{Controller}
use heis_test.Gossip.Controller.Events.{Event, incoming, ticked, started, handle}
use heis_test.Gossip.System.Spoken.{Says, Reads, IsSpoken, Says-map, entries-Says, act_cases}
use heis_test.Gossip.Process.{
  Process, publish, Action, Input, button, floor, obstruction, event_of, act,
}

-- Inputs bring no entries.
event_of-Brought :
    (K : RequestKey → RequestCell → Type 0) (n : ℕ) (c : Controller) (i : Input)
    → Brought K n c (event_of i)
event_of-Brought K n c (button e) = tt
event_of-Brought K n c (floor f) = tt
event_of-Brought K n c (obstruction on) = tt
event_of-Brought K n c Input.ticked = tt

module _ (K Q : RequestKey → RequestCell → Type 0)
    (sub : (k : RequestKey) (c : RequestCell) → Q k c → K k c) (w : History) (lo id : ℕ)
    (boot : List ℕ) where
  -- What is known after an action: what was known by `K`, or a write of the process' own.
  abbrev pub Told : History → ℕ → RequestKey → RequestCell → Type 0
  Told log hi k x = K k x ⊎ IsWrite id boot log hi k x

  pub record HasActed (n : ℕ) (p : Process) : Type 0 where
    pub logged : Logged Q w lo id boot n p.controller
    pub spoken : IsSpoken (Told logged.log p.controller.clock.value) p

  told_cells :
      (n : ℕ) (c : Controller) (h : Logged Q w lo id boot n c) (k : RequestKey)
      → Told h.log c.clock.value k (cell c.reqs k)
  told_cells n c h k = elim (h.cells k) [ inl q ↦ inl (sub k _ q) | inr x ↦ inr x.0 ]

  acted :
      (n : ℕ) (p : Process)
      → Logged Q w lo id boot n p.controller
      → All (Says K) p.node.incoming
      → Says K p.node.last
      → HasActed n p
  acted n p h heard said = record {
    logged = h;
    spoken = record {
      cells = told_cells n p.controller h;
      heard = All-map (Says-map (λ _ _ q. inl q)) p.node.incoming heard;
      said = Says-map (λ _ _ q. inl q) p.node.last said;
    };
  }

  acted_publicly :
      (n : ℕ) (p : Process)
      → Logged Q w lo id boot n p.controller
      → All (Says K) p.node.incoming
      → HasActed n (publish p)
  unfolding publish set_local snapshot
  acted_publicly n p h heard = record {
    logged = h;
    spoken = record {
      cells = told_cells n p.controller h;
      heard = All-map (Says-map (λ _ _ q. inl q)) p.node.incoming heard;
      said = entries-Says _ p.controller.reqs h.table (told_cells n p.controller h);
    };
  }

  pub act-HasActed :
      (now n : ℕ) (a : Action) (p : Process)
      → n + 6 < 2 ^ 64
      → Logged Q w lo id boot n p.controller
      → IsSpoken K p
      → Reads K a
      → ((snap : Snapshot) → Says K snap → Brought Q n p.controller (incoming snap))
      → HasActed (n + 6) (act now a p)
  act-HasActed now n a p fits h s r merged =
      let h' = IsLogged-le Q w lo id boot {m = n + 6} (omega arith) h in
      let step : (e : Event)
          → Brought Q n p.controller e
          → Logged Q w lo id boot (n + 6) (handle now e p.controller) =
        λ e b.
          IsLogged-le Q w lo id boot (omega arith)
            (handle-IsLogged Q w lo id boot now n e p.controller (omega arith) b h) in
      act_cases (HasActed (n + 6)) now p a (acted (n + 6) p h' s.heard s.said)
        (λ snap e.
          acted (n + 6) _ h'
            (All-append (Says K) p.node.incoming (snap ∷ []) s.heard (subst (Reads K) e r, tt))
            s.said)
        (λ snap rest e.
          let heard = subst (All (Says K)) e s.heard in
          acted_publicly (n + 6) _ (step (incoming snap) (merged snap heard.0)) heard.1)
        (acted_publicly (n + 6) _
          (IsLogged-le Q w lo id boot (omega arith) (
            handle-IsLogged Q w lo id boot now (n + 3) ticked _ (omega arith) tt
              (handle-IsLogged Q w lo id boot now n started p.controller (omega arith) tt h)))
          s.heard)
        (λ i.
          acted_publicly (n + 6) _ (step (event_of i) (event_of-Brought Q n p.controller i))
            s.heard)
