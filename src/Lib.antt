-- ===== src/Lib.antt =====
-- A verification of Entropy Hunt, a leaderless search by a swarm of drones: each drone keeps a map of how
-- certain it is of every cell, picks the most uncertain free cell, contends for it with the other drones
-- by claims over a mesh, and moves there; heartbeats tell which drones are lost.
--
-- The parts and their files, with paths from the repository's root:
--
-- - Base: the shared library. Python's lists, dicts (in insertion order), sets (lists without
--   repetitions), `sorted` and `min` with a key, exceptions (`Result`), integers and the order of
--   strings. Base/Numeric is the interface of floating-point numbers: a float is a member of a type with
--   a strict weak order in which incomparable numbers are equal, so NaN is left out and 0.0 and -0.0
--   are one number; the functions of Python's `math` and the arithmetic are parameters, of which only
--   the laws of that record are used.
-- - Certainty: core/certainty.py, every function and every method of `CertaintyMap`. A map is its size,
--   its decay rate and its rows of cells; a method that raises answers `raise`. Certainty.Cells has the
--   cells and their updates, Certainty.Methods the rest, and the other children the theorems.
-- - Selector: core/selector.py, `ZoneSelector`.
-- - Auction: auction/protocol.py, `resolve_conflict` and `_fallback_assignments`.
-- - Heartbeat: core/heartbeat.py, `HeartbeatRegistry`.
-- - Drone: roles/drone.py, `DroneState` and `spread_starting_position`.
-- - Mesh: core/mesh.py, the envelopes, the topics, `InMemoryMeshBus` and `NullBus`.
-- - Consensus: core/consensus.py, `DeterministicResolver`. Consensus.Ballots has the votes that it casts and
--   Consensus.Rounds the rounds. The loop that polls for a quorum counts down the polls that its deadline
--   leaves room for, which are an argument.
-- - Wire: simulation/protocol.py, the payloads as tagged records, their topics and parsers.
-- - Peer: simulation/mesh_handler.py, `PeerMeshHandler`: Peer.Messages its handlers and the loop over
--   incoming messages, Peer.Publishing what it sends.
-- - Claims: simulation/claim_manager.py, `PeerClaimManager`: Claims.Rounds its methods,
--   Claims.Lost what becomes of stale peers, and Claims.Others what a change of one peer leaves of the rest.
-- - Partition: auction/voronoi.py, `ownership_grid`; Partition.Grouping has `partition_grid`,
--   `_grid_from_partitions` and `boundary_cells`. The three grids of the flood are one grid of labels, and a
--   cell that is not claimed has none. Partition.Flood to Partition.Whole have what the flood keeps and that
--   it ends, Partition.Owners, Partition.Roundtrip and Partition.Borders the theorems.
-- - Failure: failure/injector.py and failure/network_injector.py.
-- - Simulation: simulation/stub.py with simulation/scheduler.py and the fields of
--   simulation/base_config.py, the swarm in one process that runs all the parts above on a clock.
--   Simulation.Traffic is what it publishes and reads, Simulation.Assignment and Simulation.Contention how
--   cells are given out, Simulation.Liveness who is lost and recovers, Simulation.Search moving and
--   searching, Simulation.Run the clock, and Simulation.Soundness what every state of a run keeps. A drone in
--   a list of Python objects is its id. The random draws and the schedules of the voting threads are
--   the `World`, which a state carries.
-- - Tests: concrete inputs on which the theorems apply, with an arithmetic in thousandths.
--
-- Conventions: `self` is the last or the first argument and the new state is part of the result;
-- a method under a lock is one step; times are natural numbers of milliseconds or seconds, and
-- `a - b > c` on them is written `b + c < a`. Loops are structural, so no fuel is needed but for the
-- decimal digits of a number, where Base/Text proves that the fuel is enough, and for the flood of
-- `ownership_grid`: its fuel is twice the sum of the greatest keys of all cells, and each turn lowers twice
-- the sum of the keys plus the length of the queue. A method that raises leaves no state behind, but for
-- the resolver's, which answers its state in every case.
--
-- Not modelled: the transports over UDP, MQTT and the Vertex helper process, the runtime of a single
-- peer, the proof log and the exports, which are input and output, and the dashboards,
-- the ROS 2 workspace, the Webots bridge and the scripts.
pub mod Base
pub mod Heartbeat
pub mod Drone
pub mod Certainty
pub mod Selector
pub mod Auction
pub mod Mesh
pub mod Failure
pub mod Consensus
pub mod Wire
pub mod Peer
pub mod Claims
pub mod Partition
pub mod Simulation
pub mod Tests
