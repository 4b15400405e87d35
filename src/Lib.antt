-- ===== src/Lib.antt =====
-- Two elevator programs. The first, below Annen_heis/new_heis, is a controller that runs beside
-- others like it: each keeps a table of requests, sends it to all, merges what it receives, and
-- computes for itself which hall requests are its own. The second, at the root of the repository,
-- keeps the hall requests of all elevators in an array, and lets the elevator whose ID comes first
-- among the living assign them.
--
-- Prelude: what the modules share. Numbers are native; Int has the integers, Compare the orders,
-- Assoc the maps, Sort the sorts.
--
-- Gossip: Annen_heis/new_heis, from where the paths of this part start.
--   Model      internal/model/types.go: Version (CompareVersion), Key (compareKey), Clock (Next,
--              Observe, Seed), Table (Cell, Set, entries, MaxCounter), Kinds and Soft
--   Cluster    internal/cluster: Merge (MergeRequests) and Tracker (Observe, Expire, LiveStates);
--              Node (node.go: SetLocal, send, recv); Convergence, Same, Exchange and Divergence say when
--              merges agree
--   Assigner   internal/assigner/assigner.go: Assign and cost
--   Driver     internal/driver/driver.go: the device, as a log of the calls, the newest first
--   Controller internal/controller/controller.go: State (New, set, clearFloor, sync), Requests
--              (shouldStop, nextDir, nextDoorDir, pickDoorDir, anyFrom), Motion (open, plan, doorStep)
--              and Handlers (ApplyRemote, HandleButton, HandleFloor, HandleObstruction, HandleTick);
--              Events has the main loop of cmd/elevator/main.go, with any events in any order
--   Process    cmd/elevator/main.go: a controller with its node, from its start on
--   System     the processes together: each does what it does by itself, and sends its snapshot; a
--              node reads any snapshot that was ever sent, at any time and any number of times, or
--              nothing
--   Mock       internal/driver/mock/mock.go: the simulated car and its ticker; Console (console.go: the
--              commands, from the words of a line on)
-- Station: the program of the root.
--   Elevio       elevio/elevio.go: the messages to the server and one round of each poll
--   Poll         elevio/elevio.go: one round of PollButtons, with its array
--   Elevator     elevator/types.go and elevator/requests.go
--   Fsm          elevator/fsm.go, with the calls of the hardware in their order
--   HallAssigner hallassigner/hallassigner.go
--   Timer        timer/timer.go
--   Peers        network/peers/peers.go: the receiver of heartbeats and the transmitter
--   Broadcast    network/bcast/bcast.go: both loops, with json.Marshal and json.Unmarshal as parameters
--   World, Loop  main.go: the state of `main`, its closures, and each case of its `select`
-- Exercise: Exercise5-master/messagepassing/request.go, apart from both programs: Queue (PriorityQueue).
--
-- A handler is a function of the state and of one time, which stands for all readings of the clock in
-- it. A Go int is an integer without bounds, or a number where it is never negative (IDs, times,
-- durations); the clock's counter, a uint64, keeps its wrap. A text is the list of its bytes. The
-- zero time of the door's deadline is `none`. An enumeration has its named values only. A map is a
-- list of keys and values, whose order stands for the iteration order. In Station an index outside an
-- array is `none`, which stands for the panic; arrays are functions that are read below the number of
-- floors.
--
-- The loop of anyFrom has as many rounds as the building has floors, and one more for its last test:
-- each round but that one passes a floor. The loop of cost in hallassigner has 51 rounds, since the
-- duration grows by 2 in each and 100 is its limit.
--
-- An event of a controller advances its clock by three at most beyond what it has observed, and the end
-- of the startup window by six; with 6 n below 2^64 no clock wraps in n steps of the system. That no
-- elevator starts again is needed there: see Divergence.
--
-- The proofs stand below the component that they are about, or beside it: Version/Order,
-- Table/Lookup, Table/Entries, Tracker/Laws and Expiry, Assigner/Best and Agreement; of the
-- controller Frames and Cases (what each method keeps, and its branches), Safety, Lamps, Sound,
-- Logged, Loops, Service, Livelock and Stuck; of the station Partial (results that may be missing),
-- Unassigned, Bare and Serving, Idle, Waiting and Timely, Signals, Door and Visible, Bounds, Total
-- and NoPanic, Rows and Kept, Exchange, Cleared, Cost, Poll/Rounds, Poll/Button and Buttons. Of the
-- system Known (what was written), Spoken, Acted, Consistent, Acts, Reached, Converges, Agrees and
-- Delivers; of the receivers Current, Master and Shared. Examples, Nodes, Cars, Callers, Elevators,
-- Meeting, Mocks, Stops and Runs hold concrete inputs.
--
-- Left out: sockets, JSON and goroutines (Annen_heis/new_heis/internal/cluster/socket_unix.go, the
-- connection in elevio), the reading of lines and the text that the console of the mock driver
-- writes, flags, the resource managers of the exercise, their users and its terminal output, and
-- the copies of other projects below Annen_heis/new_heis. What encoding/json encoded it decodes to
-- the same value; in System a packet of anybody else does not decode.
pub mod Prelude
pub mod Gossip
pub mod Station
pub mod Exercise
