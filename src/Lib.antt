-- ===== src/Lib.antt =====
-- netmon counts the traffic of each thread of a host. A capture thread (crates/capture) reads
-- frames from libpcap and sends flow records over a bounded channel. The aggregator thread
-- (crates/aggregator) asks the resolver (crates/resolver) which thread owns a record's socket,
-- counts its bytes for that thread, the connection and the interface, shifts histories of one
-- sample a second, and publishes rows that the user interface (crates/gui) draws. The controller
-- (crates/controller) blocks processes with nft.
--
-- Capture follows crates/capture/src/lib.rs: Capture.Packet is parse_packet and what it calls, on a
-- frame as a list of bytes, and Capture.Loop is run_capture_loop with handle_pending_commands. What
-- libpcap, the channels and the running flag give to a round is a Turn. Thread also keeps what was
-- sent and written, which the theorems speak of; that a flush was called is kept, whether it succeeded
-- is not, as the code ignores its errors.
--
-- Aggregator follows crates/aggregator/src/lib.rs. Aggregator.Record is process_record, with its
-- owner lookup and the counters that it changes; Aggregator.History and Aggregator.Rotation are the
-- histories and the one-second tick; Aggregator.Threads marks, evicts and prunes;
-- Aggregator.Publish is publish_snapshots, Aggregator.Csv is append_history_csv, and
-- Aggregator.Loop is run_aggregator_loop over its local variables, one Input for each turn;
-- Aggregator.Control is what stands around it: joining the thread, the history file, and a resolver
-- that cannot be made. Env is the home directory, which two crates look up in the same words. The
-- clock is read once in a turn, in milliseconds. Aggregator.Invariant says what its counters keep
-- at all times.
--
-- Resolver.Netlink follows crates/resolver/src/netlink.rs, with its structs in Resolver.Wire;
-- Resolver.ProcNet follows crates/resolver/src/proc_fallback.rs, Resolver.PidMap
-- crates/resolver/src/pid_map.rs, and Resolver.Cache the ResolverCache of
-- crates/resolver/src/lib.rs. The kernel's answers, the files of /proc and /etc/passwd are
-- parameters (Kernel, Host). Resolver.Api is the interface through which the aggregator uses a
-- resolver, with the two laws that it needs; Resolver.Cache.Laws fills it. Resolver.OneShot makes a
-- resolver for one question. Flow is the match of a flow with a socket, which two crates write out,
-- and Net are the addresses of std::net.
--
-- Controller follows crates/controller/src/lib.rs: Controller.Ports are the ports of a process and
-- the rule sets over them, Controller.Handles the rule handles read from the text that nft prints,
-- Controller.Action the runs of nft and what they return, and Controller.Process the operations:
-- block, unblock, rate limit and flush. Control is the state of nft and RULES_BY_PID; a call gives
-- a Result and the state that it leaves. Controller.Nft is the interface of nft: its command lines,
-- and of its behaviour that a listing with handles shows one rule on a line, which ends in the word
-- handle and a number, that a deletion removes the rule with its handle and fails where there is
-- none, and that a flush empties the chain. Controller.Listing reads such a listing.
--
-- Gui follows crates/gui/src/main.rs behind its drawing. Gui.Types is NetmonApp; Gui.Sort the order
-- of the process table; Gui.Session the capture session and the status channel, over
-- Capture.Control, which is CaptureControl and spawn_capture_thread; Gui.Control the blocks and
-- limits, over the controller, a Session being the interface with the state of the controller;
-- Gui.View the selection, the connections and the chart; Gui.Export the exports; Gui.Host what is
-- asked of the host, main and drop. Gui.Steps is the relation of the steps that the user and the
-- threads make, with the sessions that are reachable by them. libpcap, the clock, files and the end
-- of a join are arguments of the operations that meet them. No lock is ever poisoned, as no thread
-- panics with one held.
--
-- A HashMap is an association list with distinct keys in an order that no theorem depends on. A
-- function that can fail early or index out of range returns an Outcome: a value, an error, or
-- panicked. Counters are natural numbers with saturating_add and the wrapping of unchecked u64
-- addition written out, as a release build computes it. The loop over the messages of a netlink
-- datagram runs on as many rounds as the datagram has bytes, and one more: each round moves on by
-- at least four bytes, so they are enough, as is proved. Printing a number runs on its value as
-- fuel. All other loops are structural.
--
-- Not modelled: the threads of std, opening devices and files, failed writes of the history file,
-- and drawing with egui with the formatting of floats that it shows.
pub mod Base
pub mod HashMap
pub mod Net
pub mod Flow
pub mod Capture
pub mod Resolver
pub mod Aggregator
pub mod Controller
pub mod Gui
pub mod Env
