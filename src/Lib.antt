-- ===== src/Lib.antt =====
-- A model of the control plane of go-l2tp: the coding of AVPs (attribute-value pairs) and control
-- messages, the reliable transport that carries the messages (RFC 2661, RFC 3931), the state machines
-- of dynamic tunnels and sessions, the context that keeps the tunnels, and the coding of PPPoE
-- discovery packets (RFC 2516), the kernel interface, the configuration files, and the daemon kpppoed,
-- which switches PPPoE sessions into L2TP sessions.
--
-- The parts and how they interact. A tunnel or session builds a control message from AVPs (`newAvp`,
-- `buildV2Msg`), the transport checks it (`validate`), numbers it, writes its bytes to the socket and
-- keeps it until the peer acknowledges it. A frame from the socket is read into messages, each of
-- them a header and AVPs; their numbers acknowledge what was sent, and the messages themselves go,
-- in sequence, to the tunnel. The tunnel makes an event of its state machine of each message, and
-- passes the messages of sessions on; a session has a state machine of its own. Both tell the handlers
-- of the context when they are up and down. The context creates the tunnels, and finds them by name
-- and by ID, as a tunnel finds its sessions. A tunnel and a session have
-- their data plane in the kernel, which takes requests made of attributes. The configuration of tunnels
-- and sessions is read from a TOML tree. kpppoed takes PPPoE packets from a connection, keeps a table
-- of sessions, answers PADI and PADR, and spawns a daemon for each session that brings up the L2TP
-- tunnel; it ends the daemon when the peer or the tunnel goes, or at a signal.
--
-- Which file models what. Names of functions, fields and types are those of the source in snake case
-- and types in camel case.
--   Prelude       shared: tests, lists, integers, digits of words, bytes, and results that can be a
--                 value, an error, a Go panic, or `stuck`, a loop that has run out of fuel
--   Avp           l2tp/avp.go: Types, MsgTypes (the constants), Info (avpInfoTable, getAVPInfo),
--                 Header (avpHeader and its methods), Payload (avpPayload, decode), Encode (newAvp),
--                 Parse (parseAVPBuffer), Find (findAvp and its kin), Write (the AVPs in toBytes).
--                 Proofs: HeaderFields, RoundTrip, Built, ParseSteps, ParseRoundTrip, ParseSound,
--                 ParseFaults
--   Msg           l2tp/msg.go: Spec (the message specifications), Validate (validateAvps), Message
--                 (both kinds of message and their operations), Parse (parseMessageBuffer), Build
--                 (newV2Sccrq to newV2Cdn). Proofs: ValidateSpec, Steps, RoundTrip, Built, Sendable
--   Transport     l2tp/transport.go: Seq (sequence numbers), SlowStart (slowStartState), State
--                 (transport, its configuration, newTransport), Send (sendMessage to
--                 sendExplicitAck), Ack (processAckQueue), Receive (recvFrame, processRxQueue),
--                 Events (the sender's and the receiver's loop, an event at a time). Proofs:
--                 SeqOrder, Window, AckOrder, Order, Delivery, Flight, Outcomes, Invariant, Complete, Hello
--   Fsm           l2tp/fsm.go: a state machine from a table. Proofs: FirstRow
--   Dynamic       Args (the arguments of events, l2tp/avp.go's result codes), Session
--                 (l2tp/l2tp_dynamic_session.go) and Tunnel (l2tp/l2tp_dynamic_tunnel.go), each with State
--                 (the state and the table), Act (the callbacks) and Step (events, messages, the
--                 loop). Proofs: Counts, Moves, Up, Once of both, Tunnel/Quiet, Session/Icrp
--   Context       l2tp/l2tp.go: Links (the maps of tunnels and of sessions), Alloc (IDs and serial
--                 numbers), Events (the handlers), Address (socket addresses), Create (NewStaticTunnel,
--                 NewQuiescentTunnel, NewDynamicTunnel). Proofs: Links/Facts, Links/CloseAll,
--                 Links/Refine, Alloc/Fresh, Create/Fresh, Create/Outcome
--   Pppoe         pppoe: Packet (packets and Validate), Build (NewPADI to NewPADT, ToBytes), Parse
--                 (ParsePacketBuffer). Proofs: Build/Valid, Parse/RoundTrip, Parse/Ends
--   Config        config/config.go: Types (values of TOML, and the configurations of l2tp/const.go),
--                 Convert (toBool to toBytes), Load (newSessionConfig to newConfig), Print (tables
--                 with some keys of a configuration, in any order), Chosen (what such a table sets).
--                 Proofs: Ranges, Ignored, Printed, RoundTrip
--   Netlink       internal/nll2tp/nll2tp.go and const.go: Attributes (tunnelCreateAttr,
--                 sessionCreateAttr), Conn (the requests and execute), Decode (sessionInfo_decode,
--                 GetSessionInfo). Proofs: Accepts, Sessions, Answers
--   DataPlane     l2tp/nl_dataplane.go: the data plane of tunnels and sessions. Proofs: Blind, Opens
--   Kpppoed       cmd/kpppoed/kpppoed.go: State (application, pppoeSession), Handlers (sendPacket,
--                 handlePADI, handlePADR, handlePADT, closePPPoESession), Run (the event loop),
--                 Params (ParseParameter and the checks of main). Proofs: Daemons/Sound, Daemons/Kept,
--                 Daemons/Spawned, Daemons/Closing, Daemons/Packets, Daemons/Runs, Replies, Silent,
--                 Silent/Events, Silent/Runs
--   Tests         the theorems at concrete inputs
--
-- How state and integers are modelled. Bytes are numbers below 256 and a string is its bytes. A
-- uint16 or uint32 is a number, with the wrap-around written out where the source computes. The
-- transport's state is a record. A message for transmission is shared by the queues and by its retry
-- timer, so the queues hold identifiers of messages in a store. A timer is whether it runs; that it
-- fires is an event. What the socket does with a write is a parameter, a function from the number of
-- the write to whether it succeeds. The two goroutines are two step functions, `sender_step` and
-- `receiver_step`. A session and a tunnel are each a record with the list of what they have done to
-- their surroundings, the latest first. What the surroundings answer (whether a message can be sent,
-- whether the data plane comes up, the name of an interface, a random number, an address that a text
-- resolves to) is a parameter, in most cases a function from the number of the action. What their
-- goroutines receive is a list, in any order. A callback that calls `handleEvent` again does so for
-- the event `close` only, whose callbacks do not: two levels of `handle_event` are enough. The event
-- loop of kpppoed runs over a list of what its channels give. Each event is handled
-- whole before the next one. The goroutine that the first signal starts has events of its own, a step
-- each for the closing of the connection and of a session, which may come between the loop's events;
-- the other goroutines, the start of the wait for a daemon and the end of one, are part of the event
-- that starts them. What `rand` draws, whether a daemon can be spawned and whether the connection takes a
-- packet are parameters, as are the kernel's answers, the coding of netlink messages, and the parser
-- for the parameters that config does not know.
--
-- Fuel. `parse_avp_buffer` and `parse_message_buffer` have a round for each byte of their input;
-- each round reads a header at least, so this is enough.
-- `process_ack_queue` has a round for each message in its queue and `process_rx_queue` one more; a
-- round removes a message or raises the index. `parse_packet_buffer` has a round for each byte and one
-- more, and each round takes twenty bytes, or four for a tag. The loops of tunnels and sessions run
-- over the list of what they receive.
--
-- What is not modelled. The String methods and names for logging in l2tp/avp.go and pppoe; opening
-- and closing sockets and channels (l2tp/controlplane.go, pppoe/conn.go, and closeReceiver, recv and
-- close in l2tp/transport.go); the locks and the interleaving of a tunnel with its sessions and of both
-- with the caller's NewSession and Close; the operations of static and quiescent tunnels but for
-- their creation (l2tp/l2tp_static.go, l2tp/l2tp_quiescent.go); the TOML and netlink packages, whose
-- results are parameters; the dial of the netlink connection; the runner of kl2tpd
-- (cmd/kpppoed/l2tpd_kl2tpd.go) and the daemons kl2tpd and ql2tpd (cmd/kl2tpd, cmd/ql2tpd), which start
-- processes and open sockets; main, but for its checks of the configuration. The order in which
-- Go visits a map is left open: of several missing AVPs, the model does not say which one an error
-- names, and sessions are told, closed and killed in the order of the model's list. The texts of errors are
-- a type of errors.
mod Prelude
pub mod Avp
pub mod Msg
pub mod Transport
pub mod Fsm
pub mod Context
pub mod Dynamic
pub mod Pppoe
pub mod Netlink
pub mod DataPlane
pub mod Config
pub mod Kpppoed
mod Tests
