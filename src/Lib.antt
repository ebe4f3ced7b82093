-- ===== src/Lib.antt =====
-- go-sliding-window: a model of the package swp, with its theorems.
--
-- The package gives two clients of a network that loses and reorders messages a flow-controlled,
-- reliable and ordered stream of packets. Each end is a session (swp.go) of a sender (sender.go) and
-- a receiver (recv.go), each a loop over channels in a goroutine of its own. The sender numbers what
-- the application pushes, keeps it in two ordered trees (retree.go) until it is acknowledged, and
-- sends it again when its deadline, which follows the observed round trips (rtt.go, stddev.go), has
-- passed. The receiver puts the packets in order in a window of slots, hands them to the application,
-- and answers with acknowledgements that carry its free capacity (flow.go). It also runs the
-- connection's state machine (tcp.go), whose packets are sent again by a timer (retry.go).
--
-- The files, and what they model:
-- - Base and its children: Boolean tests, lists with native indices, and Go's int64 with its
--   wrap-around written out.
-- - Tcp: the states, events and actions of tcp.go and UpdateTcp; Tcp/Order: the order of the states.
-- - Packet, Window, Flow: Packet and the slots (swp.go, recv.go, sender.go), InWindow (swp.go) and
--   UpdateFlow (flow.go). A time is the integer of its nanoseconds. A pointer that is only compared
--   and handed on is an optional identity.
-- - Externals: what is not in the repository, as a record of operations: the red-black tree with its
--   laws (TreeLaws), the hash, and float64. Externals/Lists shows that the laws can be met.
-- - Retree, Rtt: retree.go, and rtt.go with stddev.go. Retree/Prefix: what a deletion removes.
-- - Sender: SenderState and NewSenderState; Sender/Estimate: GetDeadlineDur; Sender/Send:
--   doOrigDataSend and the retries; Sender/Control: doKeepAlive, doSendClosing and the cases that
--   send an acknowledgement or a SYN; Sender/Receive: the case GotPack; Sender/Loop: the whole loop
--   of Start. What goes to Net.Send is appended to the list `net`. Sender/History, Sender/Kept,
--   Sender/KeptControl: the numbering; Sender/Writes: writes through a pointer; Sender/Outstanding,
--   Sender/SeqTree, Sender/Owned, Sender/Retried, Sender/Unacked: the tree by sequence number;
--   Sender/Deadline: the deadline.
-- - Recv: RecvState in four parts; Recv/Data: a data packet in the window; Recv/Ack: UpdateControl
--   and ack; Recv/Consume: delivery by packets and by bytes; Recv/Action: doTcpAction; Recv/Retry:
--   retry.go; Recv/Handle: the cases MsgRecv and ConnectCh; Recv/Loop: all cases. The other children
--   prove: Frames, Order, Slots, Store and Receive the window against the set of its frames, Stream a
--   list of packets, Untouched, SameWindow and Deliver the whole case, Events the loop over the
--   events, Read and Moves the bytes, Attempts the retries, Room the queue of acknowledgements.
-- - Wire: the serialization (swp_gen.go, tcp_gen.go), over the functions of github.com/tinylib/msgp
--   as a record of operations. Wire/Packets, Wire/PacketEncode, Wire/Files, Wire/Messages,
--   Wire/Enums: the methods of each type; Wire/Dispatch: the type that a call through an interface
--   chooses; Wire/Laws: the documented behaviour of msgp (MsgpLaws), which Wire/Plain shows can be
--   met; Wire/PacketTrip, Wire/PacketBytes, Wire/FileTrip, Wire/MessageTrip, Wire/AckTrip,
--   Wire/Encode, Wire/RoundTrip, Wire/Bounds: what is read back, and the sizes. Wire/Nats: Send and
--   the subscription of natsnet.go.
-- - SimNet: the simulated network of simnet.go, and SimClock (clock.go). SimNet/InHand,
--   SimNet/Genuine: what it hands over; SimNet/Reorder: packets that change places; SimNet/Chance:
--   the random number.
-- - Events: the ring of times of overing.go. Events/Recent: that it holds the last events;
--   Events/Slices: what a copy leaves where; Events/Queue, Events/Written, Events/Loop,
--   Events/Advance, Events/Reading: the ring as a queue. The loop of WritePtrs gets three rounds,
--   which the theorem on it shows to be enough.
-- - Asap: the queue of asap.go.
-- - Session: NewSession, the cutting of a Write, RecvFile and SendFile (swp.go); Session/Connect,
--   Session/Connected: ConnectIfNeeded and the Connect of recv.go.
-- - Link: a sender and the receiver at the other end over a network, as a step relation; Link/Acked,
--   Link/Stream, Link/Unacked, Link/Ledger and Link/Bytes: what holds in all its runs.
-- - Tests: the definitions at concrete inputs.
--
-- Each case of a loop is one function from state to state; it takes the readings of the clocks and
-- the results of Net.Send that the case makes, and returns none, or a constructor `panicked` or
-- `crashed`, where Go panics.
--
-- The slots of Txq are shared: the two trees point to them, and the list of the retries too. A slot
-- is a value here, and which entry of Txq it is follows from its number (place). A write to an entry
-- (write_through) changes it wherever something points to it: in both trees, by map_items of
-- Externals, and in the rest of the list of the retries. So a first send into an entry that is still
-- in a tree overwrites the frame there, as in the code. Packets are values: a retry, which changes
-- the packet that the history shares with the slot, changes the slot's alone, and no theorem depends
-- on a field that it changes.
--
-- Loops are structural, but for three that run on fuel: that of WritePtrs, and two more. The delivery
-- loop of the receiver gets one more than the number of slots: each round empties a slot, and the
-- theorems on Recv.Stream show that it does not run out. The loop over the events gets two rounds,
-- which handle_info-settles shows to be enough: the end of the fuel is an outcome of its own.
--
-- Not modelled: the timing of channels and goroutines, the shutdown, the NATS server, TLS and the
-- configuration of its clients (tls.go, util.go, filetransfer.go, limits.go), the generated
-- methods of TcpAction (tcp_gen.go), which is never sent, and names (tcp_string.go), logging, the
-- instrumentation for tests, and the example programs.
pub mod Base
pub mod Tcp
pub mod Packet
pub mod Window
pub mod Wire
pub mod Flow
pub mod Externals
pub mod Retree
pub mod Rtt
pub mod Sender
pub mod Recv
pub mod Link
pub mod Session
mod Tests
pub mod SimNet
pub mod Asap
pub mod Events
