-- ===== src/Lib.antt =====
-- sibench, a distributed storage benchmark: a manager sends a work order to the foremen of several
-- servers; each foreman divides the order between workers, which write, prepare, read and delete
-- objects over connections to the storage under test and report statistics.
--
-- The parts and their files:
--   Messages.antt, Messages/Summary.antt: opcodes, phases, stats and the summary counters
--     (src/sibench/messages.go, src/sibench/stats.go).
--   Foreman/: src/sibench/foreman.go. States has the transition tables, Machine the state and what
--     changes it, Connect the work order, Handlers the handlers and the event loop, Stats the
--     go-routine processStats. Handlers return an Outcome: they return, wait forever, exit or panic.
--     What is sent over a channel is recorded in the order in which it is sent.
--   Worker/: src/sibench/worker.go. States has the transition table, Store the stats slices,
--     Bandwidth the delays, Machine the state and setState, Events the operations and the event
--     loop. A round of the loop is an opcode or an operation, with the connection's answer, the
--     clock, the random numbers and whether the generator panics on a size as inputs. A panic is
--     none.
--   Manager.antt, Manager/: src/sibench/manager.go. Loops has the loops that wait for messages,
--     Phases the phases, Run the rest of RunBenchmark. A function takes the events that come in, in the
--     order in which its selects take them, and returns with those that it has not read, waits for
--     more, lets the process exit, or panics. What goes to the servers is recorded in order.
--   Report.antt, Job.antt: src/sibench/report.go and src/sibench/job.go.
--   Protocol.antt: the foreman's and the workers' tables together.
--   Generator/: src/sibench/prng_generator.go and, in Slices, src/sibench/slice_generator.go, on
--     lists of bytes. The draws of math/rand are parameters.
--   Ranges.antt: consecutive ranges of objects, for the manager's orders and the foreman's shares.
--   Comms/: src/comms. Framer has prelen_framer.go, Encoder gob_encoder.go and Connection the
--     go-routine of tcp_connection.go that receives; the connection's Read and Write and the format
--     of gob are parameters. Orders has what gob leaves in the foreman's variable for its work order.
--   Foreman/Rendezvous.antt: the foreman and processStats as two processes that meet on channels
--     without a buffer. A move is a message, a response, a closed connection, a tick, a summary, or a
--     meeting. What goes to the workers, over channels with room for ten opcodes, is left out there.
--   Analysis/: the filters, the sort and NewAnalysis of src/sibench/stats.go; Floats has the double
--     precision product by 0.95.
--   Connections/: Block has src/sibench/block_connection.go, Rbd src/sibench/rbd_connecton.go, Files
--     src/sibench/file_connection_base.go, Cephfs src/sibench/cephfs_connection.go and S3
--     src/sibench/s3_connection.go. The calls of the operating system, of librbd and of the S3 client
--     are parameters.
--   Units.antt, Command.antt, Command/: src/sibench/main.go. Units has expandUnits, Command the check
--     of the arguments and the job of startRun.
--   Mounts.antt, Mounts/Clients.antt: src/sibench/mount_manager.go, and its callers.
--   Misc/: src/sibench/misc.go. Base/: shared helpers. Scenarios/: concrete runs.
--
-- Machine integers are naturals with the wrap-around written out. The two byte loops of the framer
-- run on fuel, the number of bytes that are asked for, which is enough since a read gives at least
-- one byte; the loops that write and read files and devices run on fuel, the number of bytes, in
-- the same way; the loop over an object's slices runs on the size of the object, since each slice
-- has a byte or more. The float32 arithmetic of the ranges is an interface (Base/Floats.antt). The
-- foreman's wait for its workers in terminate is left out of its handlers, since it changes no
-- field; Foreman/Rendezvous.antt has it. In the manager, a write to the report's file, the storage
-- connection and the connections to the servers succeed or fail as the record Surroundings says.
--
-- Not modelled: the encoding and the display of the report, the connections to other storage systems,
-- which are calls of client libraries, dialling and listening, the parsing of the command line and
-- the logger.
pub mod Base
pub mod Messages
pub mod Misc
pub mod Ranges
pub mod Foreman
pub mod Worker
pub mod Comms
pub mod Protocol
pub mod Generator
pub mod Mounts
pub mod Job
pub mod Analysis
pub mod Report
pub mod Manager
pub mod Scenarios
pub mod Connections
pub mod Units
pub mod Command
