-- ===== src/Lib.antt =====
-- Verification of muxr-core: the daemon muxrd, which lets a phone attach to the sessions of a
-- terminal multiplexer (zellij or herdr) over gRPC, with its registries, its relay, its
-- routing, the kernel that follows herdr's events, and its notifier.
--
-- A client attaches over a stream. The relay (muxrd/src/relay) opens the backend's session,
-- registers the client's connection under a fresh id in the registries of control channels and
-- view states, takes over from an earlier attach of the same client view, counts the client,
-- and runs an inbound loop for what the client sends. Every RPC but two carries a bearer token
-- (muxrd/src/auth.rs). Unary RPCs name a session and a connection; the routing
-- (muxrd/src/grpc/helpers.rs, muxrd/src/multiplexer/routing.rs) finds the backend and queues a
-- command for the relay that carries it out. The notifier (muxrd/src/notify) tells registered
-- devices about agents that need attention, by way of the service muxr-notify.
--
-- The files, by the source they are about:
--
-- - Base, with its children: tests on native numbers, lists, and hash maps as association lists
--   with distinct keys. The order of such a list stands for an iteration order that the source
--   leaves open.
--
-- - Herdr.PaneRegistry and Herdr.TabRegistry: HerdrPaneRegistry and HerdrTabRegistry of
--   muxrd/src/multiplexer/herdr/registry.rs, each method a function on the pair of maps that
--   the mutex protects. Ids are 32 and 64 bits wide, and the counter's end is written out.
--
-- - ClientCount: SessionClients and ClientGuard of muxrd/src/client_count.rs. The shared atomic
--   counters stand in a store by address, and additions and subtractions wrap at 64 bits.
--
-- - Relay.Attach: AttachRegistry, EvictSignal and AttachLease of muxrd/src/relay/types.rs.
--   Signals stand in a store by address. Relay.Attach.World has the steps of relays that attach
--   and finish in any order, in which connection ids are fresh.
--
-- - Mux.Layout, Mux.Context, Mux.Zellij: the neutral types of muxrd/src/multiplexer/types.rs,
--   the reading of a fullscreen context from a layout, and the actions of
--   muxrd/src/multiplexer/zellij.rs for a toggle.
--
-- - Relay.Fullscreen: the decision on a fullscreen toggle in muxrd/src/relay/inbound.rs
--   (resolve_live_context, resolve_client_hint, record_applied_toggle and what they call). A
--   message of refusal is a constructor.
--
-- - Relay.Wire, Relay.Control, Relay.Inbound: inbound_loop of muxrd/src/relay/inbound.rs.
--   Relay.Wire has the frames, controls and calls, Relay.Control the gates and the arms of the
--   controls, Relay.Inbound the other arms and the loop. One turn is a function of the loop's
--   state, of what the select yields and of the backend at that turn, which answers each call,
--   reads the layout, and may change from turn to turn in any way. The loop runs over a finite
--   list of turns, as long as one likes, so that no fuel is needed.
--
-- - Relay.Reader: render_loop, drain_queries and capture_query_log of
--   muxrd/src/relay/reader.rs. A turn has what the stop flag, the channel of queries, the
--   session and the client's channel do at that turn. A reply channel is a number; the reader
--   keeps the lists of the replies that were sent and of those that were dropped.
--
-- - Mux.Events, Herdr.LineReader, Herdr.Kernel: the events of muxrd/src/multiplexer/events.rs
--   and the event kernel of muxrd/src/multiplexer/herdr/subscribe.rs. Herdr.LineReader cuts a
--   stream of chunks into lines, Kernel.Lines classifies a line, Kernel.Bootstrap has the panes
--   of the status subscription, Kernel.Resync what is listed over the control socket, with the
--   tables, Kernel.Backoff the waits, Kernel.Connect how a connection comes up, Kernel.Pump the
--   loop over both, and Kernel.Run the loop around it all, with the two ladders. A select is a
--   list of what it yields, with the instants; where the list ends first, the loop still waits
--   there. The JSON library is a record of functions, herdr's answers to the list calls are
--   part of the input, and the bus is the list of what was sent. The loops run along these
--   lists, so that no fuel is needed.
--
-- - Mux.Agents, Agents: the agents of muxrd/src/multiplexer/types.rs, and the stream of
--   muxrd/src/grpc/agent_ops.rs. Agents has the rows and the state of a stream with its
--   operations, Agents.Watch the loop, a turn of which has what each wait for room in the
--   channel yields and what the select yields after them; what was sent is a list, and the
--   backend's reads are part of the input.
--
-- - Views: the override of a layout with a relay's own view in muxrd/src/grpc/layout.rs.
--   Herdr.Resume: resolve_attach_target and what it calls in
--   muxrd/src/multiplexer/herdr/relay.rs, with herdr's answer to a listing as a function of the
--   workspace.
--
-- - Auth: BearerAuthLayer and check_bearer of muxrd/src/auth.rs; zellij's database of tokens is
--   a parameter that may fail.
--
-- - TokenExpiry: the sidecar of muxrd/src/token_expiry.rs, with the digest of a token as a
--   parameter and the file as a map of deadlines, missing, unreadable, or not parsed. The two
--   functions that turn a duration into a deadline are left out.
--
-- - Routing.Names, Routing.Session, Routing.Control: names and ids as lists of bytes.
--   Routing.Session is BackendSet and muxrd/src/multiplexer/routing.rs; the check of zellij's
--   own library is a parameter. Routing.Control is try_route_control and the gates of
--   muxrd/src/grpc/helpers.rs; whether a channel has its receiver is a parameter.
--
-- - Notify.Devices: PushDeviceStore of muxrd/src/notify/devices.rs, with the file as a list of
--   devices, missing, or unreadable. Notify.Sender: muxrd/src/notify/sender.rs, with instants
--   as nanoseconds and the remote relay's answers as a function of what was sent before.
--
-- - Service: the table of muxr-notify/src/store.rs and the handlers of
--   muxr-notify/src/handlers.rs, with the verdicts of the limiters, the state of the database
--   and the upstream's answer in the request.
--
-- - Tests: the theorems at concrete inputs.
--
-- Not modelled: tokio's scheduling inside an arm, logging, the encodings of protobuf, JSON and
-- the sockets, clocks, and the file system beyond the result of a call. A panic is modelled
-- where the source handles it, for the calls on the blocking pool and for the live reading. The
-- join of the render thread, the texts of the kernel's requests, herdr's clients, the RPCs that
-- compose the parts above, the configuration, the limiters and the upstream of muxr-notify, and
-- the terminal program muxrctl have no model here.
pub mod Agents
pub mod Auth
pub mod Base
pub mod ClientCount
pub mod Herdr
pub mod Mux
pub mod Notify
pub mod Relay
pub mod Routing
pub mod Service
pub mod Tests
pub mod TokenExpiry
pub mod Views
