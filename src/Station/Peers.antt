-- ===== src/Station/Peers.antt =====
-- network/peers/peers.go: the receiver of heartbeats. A time is a number of nanoseconds; a difference
-- of times, which the code compares with a positive timeout, is 0 here where it is negative there.
pub mod Current
pub mod Master
use heis_test.Prelude.{
  ℕ, ◌-◌, List, [], ◌∷◌, ◌++◌, map, Bool, Option, none, some, ltb, if◌then◌else◌,
}
use heis_test.Prelude.Assoc
use heis_test.Prelude.Sort
use heis_test.Prelude.Compare.{compare_bytes}
use heis_test.Station.HallAssigner.{PeerId, PeerId-discrete}

pub record PeerUpdate : Type 0 where
  pub peers : List PeerId
  pub new : PeerId
  pub lost : List PeerId

-- `peerLastSeen`.
abbrev pub LastSeen : Type 0
LastSeen = List (PeerId × ℕ)

abbrev pub peer_timeout : ℕ
peer_timeout = 500_000_000

abbrev pub ids : LastSeen → List PeerId
ids seen = map (λ e. e.0) seen

-- `buildUpdate`.
unfoldable pub build_update : LastSeen → PeerId → List PeerId → PeerUpdate
build_update seen new lost = record {
  peers = Sort.sort compare_bytes (ids seen);
  new = new;
  lost = lost;
}

-- A heartbeat of `id`, where the read brought `n > 0` bytes: the map, and what is sent on the channel
-- of updates.
abbrev announce : Option ℕ → PeerId → LastSeen → List PeerUpdate
announce none id seen = build_update seen id [] ∷ []
announce (some _) id seen = []

unfoldable pub heartbeat : ℕ → PeerId → LastSeen → LastSeen × List PeerUpdate
heartbeat now id seen =
    let seen' = Assoc.put PeerId-discrete id now seen in
    (seen', announce (Assoc.get? PeerId-discrete id seen) id seen')

-- The loop over the map in a round of the timeout: what stays, and the lost.
unfoldable pub sweep : ℕ → LastSeen → LastSeen × List PeerId
sweep now [] = ([], [])
sweep now ((id, t) ∷ seen) =
    let (kept, lost) = sweep now seen in
    if ltb peer_timeout (now - t) then (kept, id ∷ lost) else ((id, t) ∷ kept, lost)

-- The update of a round of the timeout.
abbrev farewell : LastSeen → List PeerId → List PeerUpdate
farewell seen [] = []
farewell seen (id ∷ lost) = build_update seen [] (id ∷ lost) ∷ []

-- `case <-checkTimeout.C`.
unfoldable pub check_timeout : ℕ → LastSeen → LastSeen × List PeerUpdate
check_timeout now seen = let (kept, lost) = sweep now seen in (kept, farewell kept lost)

-- What happens in a round of the loop of `Receiver`: a heartbeat is read, or nothing that counts, and
-- the ticker of the timeout has fired, or has not.
abbrev listen : ℕ → Option PeerId → LastSeen → LastSeen × List PeerUpdate
listen now none seen = (seen, [])
listen now (some []) seen = (seen, [])
listen now (some (b ∷ id)) seen = heartbeat now (b ∷ id) seen

abbrev check : Option ℕ → LastSeen → LastSeen × List PeerUpdate
check none seen = (seen, [])
check (some now) seen = check_timeout now seen

pub record Round : Type 0 where
  pub heard_at : ℕ
  pub heard : Option PeerId
  pub checked_at : Option ℕ

-- One round, with what it sends in the order of sending.
unfoldable pub round : Round → LastSeen → LastSeen × List PeerUpdate
round r seen =
    let (seen₁, first) = listen r.heard_at r.heard seen in
    let (seen₂, second) = check r.checked_at seen₁ in (seen₂, first ++ second)

-- The loop of `Receiver`, from the empty map, over any rounds.
unfoldable pub receive_from : LastSeen → List Round → LastSeen × List PeerUpdate
receive_from seen [] = (seen, [])
receive_from seen (r ∷ rs) =
    let (seen', sent) = round r seen in
    let (last, rest) = receive_from seen' rs in (last, sent ++ rest)

unfoldable pub receive : List Round → LastSeen × List PeerUpdate
receive = receive_from []

-- What the `select` of `Transmitter` sees: whether to send is switched, or the ticker fires.
pub data Beat : Type 0 where
  enable : Bool → Beat
  tick : Beat

-- The loop of `Transmitter`, from the value of `enabled`: the packets that it sends.
unfoldable pub transmit : PeerId → Bool → List Beat → List PeerId
transmit id enabled [] = []
transmit id enabled (enable on ∷ beats) = transmit id on beats
transmit id enabled (tick ∷ beats) =
    let rest = transmit id enabled beats in if enabled then id ∷ rest else rest
