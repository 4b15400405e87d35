-- ===== src/Station/Stops.antt =====
-- A concrete car that stops at a floor (elevator), and concrete receivers (network/peers).
use heis_test.Prelude.{ℕ, ◌≡◌, refl, sym, subst, List, [], ◌∷◌, true, false, none, some}
use heis_test.Prelude.Assoc
use heis_test.Prelude.Sort
use heis_test.Prelude.Compare.{compare_bytes}
use mathlib.Core.List.{Memᴰ}
use heis_test.Prelude.Int.{pos, ◌+ℤ◌, ◌-ℤ◌}
use heis_test.Station.Elevio.{MotorDirection}
use heis_test.Station.Elevator.{
  State, Row, Elevator, row, set_row, any_request, requests_above, clear_row,
  clear_at_current_floor,
}
use heis_test.Station.World.{Station, initialise, master_id}
use heis_test.Station.Peers.{Round, ids, heartbeat, round, receive_from, receive}
use heis_test.Prelude.{false, Bool, none, Option, ltb, if◌then◌else◌, arith}
use heis_test.Station.Broadcast
use heis_test.Station.Broadcast.Shared.{Heard, Interleaved, receive-Interleaved}
use heis_test.Station.Peers.Current.{told, receive-told}
use heis_test.Station.Peers.Master.{follow, same_master}
use heis_test.Station.Cleared.{ServesOnly, clear_at_current_floor-ServesOnly}

abbrev full : Row
full = record { hall_up = true; hall_down = true; cab = true }

-- On the way up at floor 1, with every request on at every floor.
abbrev arriving : Elevator
arriving = record {
  floor = pos 1;
  dir = MotorDirection.up;
  requests = λ f. full;
  behaviour = State.moving;
  door_open_duration = 3_000;
  obstructed = false;
}

abbrev without_cab : Row
without_cab = record full { cab = false }

abbrev down_only : Row
down_only = record { hall_up = false; hall_down = true; cab = false }

abbrev served : Elevator
served = record arriving {
  requests = set_row (pos 1) down_only (set_row (pos 1) without_cab arriving.requests);
}

arriving-served : clear_at_current_floor arriving ≡ some served
unfolding clear_at_current_floor row clear_row requests_above any_request set_row ◌+ℤ◌ ◌-ℤ◌
arriving-served = refl

clear_at_current_floor-ServesOnly_example :
    ServesOnly 1 MotorDirection.up arriving.requests served.requests
clear_at_current_floor-ServesOnly_example =
    clear_at_current_floor-ServesOnly 1 arriving served refl arriving-served

-- Two receivers that hear the same elevator at different times.
abbrev early : List Round
early = record { heard_at = 10; heard = some (b'a' ∷ []); checked_at = none } ∷ []

abbrev late : List Round
late =
    record { heard_at = 30; heard = none; checked_at = none }
    ∷ record { heard_at = 40; heard = some (b'a' ∷ []); checked_at = none }
    ∷ []

receive-told_example : told [] (receive late).1 ≡ Sort.sort compare_bytes (ids (receive late).0)
receive-told_example = receive-told late

early-hears : Memᴰ (b'a' ∷ []) (ids (receive early).0)
unfolding receive receive_from round heartbeat Assoc.put
early-hears = Memᴰ.head refl

same_ids : ids (receive early).0 ≡ ids (receive late).0
unfolding receive receive_from round heartbeat Assoc.put
same_ids = refl

abbrev station_of : ℕ → Station
station_of id = initialise (id ∷ []) (pos 0) (pos 0) (pos 0)

unheard : (id : ℕ) → (station_of id).peer_list ≡ []
unfolding initialise
unheard id = refl

same_master_example :
    master_id (follow (station_of b'a') (receive early).1)
    ≡ master_id (follow (station_of b'b') (receive late).1)
same_master_example =
    same_master (station_of b'a') (station_of b'b') early late (b'a' ∷ []) (unheard b'a')
      (unheard b'b') early-hears (λ j m. subst (Memᴰ j) same_ids m)
      (λ j m. subst (Memᴰ j) (sym same_ids) m)

-- Messages are numbers below 3, encoded as themselves. The packet 7 is not one of them.
abbrev encode : ℕ → Option ℕ
encode n = if ltb n 3 then some n else none

encode_decodes : (n b : ℕ) → encode n ≡ some b → encode b ≡ some n
encode_decodes n b h = ground arith

abbrev mine : List (ℕ × Bool)
mine = (1, true) ∷ (5, true) ∷ (2, false) ∷ (0, true) ∷ []

abbrev theirs : List (ℕ × Bool)
theirs = (2, true) ∷ []

abbrev on_port : List (Option ℕ)
on_port = some 1 ∷ none ∷ some 2 ∷ some 7 ∷ some 0 ∷ []

mine-Heard :
    Heard encode (Broadcast.transmit encode mine) (Broadcast.transmit encode theirs) on_port
unfolding Broadcast.transmit
mine-Heard =
    Heard.first (Heard.failed (Heard.second (Heard.foreign refl (Heard.first Heard.silence))))

receive-Interleaved_example : Interleaved (1 ∷ 0 ∷ []) (2 ∷ []) (Broadcast.receive encode on_port)
receive-Interleaved_example =
    receive-Interleaved encode encode encode_decodes mine theirs on_port mine-Heard
