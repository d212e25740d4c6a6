-- ===== src/Lib.antt =====
-- The split tunnel's data plane: how the two nodes frame, queue, pace and route the streams that they
-- relay, and how they keep up the carriers and sessions that bear them.
--
-- A carrier is a byte stream of frames (pkg/mux/frame.go) between two ends that have authenticated each
-- other (pkg/mux/auth.go). Its read loop hands the frames to one
-- dispatcher, which sorts them into a bounded mailbox for each stream (pkg/mux/queue.go), and a worker
-- for each stream hands them on to the stream's consumer (pkg/mux/carrier.go). The receiver of a stream
-- grants credits to its sender, which keeps a ledger of the bytes in flight (pkg/node/credit.go). A
-- carrier that fails is dialled again on a bounded schedule (internal/backoff/backoff.go), and the
-- session's streams wait in their attachments (pkg/session/attachment.go) for the one that replaces it.
-- A session (pkg/session/session.go) owns its sockets and tears down once.
-- What the relays read meanwhile is buffered within a budget of the node (pkg/node/budget.go).
-- Targets are dialled through a circuit breaker (pkg/node/target_dial_governor.go), directly or
-- through the WARP proxy as the routing rules say (pkg/routing).
--
-- Frame      pkg/mux/frame.go: the frame and its reader and writer (write_frame, read_frame).
--            Frame.Stream has their laws, Frame.Credit the FrameCredit payload, Frame.Control the
--            FrameReset and FrameBootstrapAck payloads.
-- Mailbox    pkg/mux/queue.go: StreamQueue with its carry region. TryPushReason, TryCarry, Close are
--            try_push_reason, try_carry, close; the loops of PushPark and Pop are push_park_round and
--            pop_round, one step for each round between two parks, so that an interleaving of
--            goroutines is a list of steps. Invariant, Fifo, Aggregate (all mailboxes of a carrier
--            over their shared counters) and Budget hold the proofs.
-- Carrier    pkg/mux/carrier.go: CarrierConn with its streams and their workers. Carrier.ReadLoop is
--            readLoop, Carrier.Dispatch is Dispatch with deliver and its kin, Carrier.Run the workers,
--            Register, Deregister, Terminate and Close, and `run` any sequence of the steps of the
--            goroutines, from before Dispatch is called: a step ends where a goroutine may wait or has
--            released the lock before a callback. Carrier.Limits is SanitizeLimits and
--            SetStreamLimits. Safe, Opened, Exact (over Mailbox.Aggregate), Fate and Blocked hold the
--            proofs, over Every, the walk through all steps.
-- Auth       pkg/mux/auth.go: the three messages of the handshake, their checks, and CarrierAuth as
--            carrier_auth, a function of the bytes that the end is sent. Response, Messages, Mutual
--            and Handshake hold the proofs.
-- Registry   pkg/node/carrier_registry.go: carrierRegistry, the handles of the carriers of one
--            direction; its methods keep their names. Selection holds the proofs.
-- Routing    pkg/routing: the rules and their matching (matcher.go). Routing.Rules is Sanitize
--            (rule.go), Routing.Engine the dial with the WARP health gate (engine.go). Select, Domains,
--            Sanitized, Gate and Failure hold the proofs.
-- CreditPlane pkg/node/credit.go: creditLedger; Gate is creditGateManager with its timers, Emitter is
--            creditEmitter. Ledger, Gate.Timers and Emitter.Cumulative hold the proofs.
-- Governor   pkg/node/target_dial_governor.go: TargetDialGovernor. Governor.Config has its constructors,
--            Governor.Dial has Dial and dialBounded. Recency, Touch and Size (the LRU map), Breaker,
--            Probe, Abandoned and Direct hold the proofs.
-- Budget     pkg/node/budget.go: sessionBufferBudget, the bytes that the relays of a node may buffer.
--            Accounting, Calls, Sealed and Waiting hold the proofs.
-- Session    pkg/session/session.go: the lifecycle of a session, with teardown in the parts between
--            which other goroutines may call. Hooks and Lifecycle hold the proofs.
-- Attachment pkg/session/attachment.go: Attachment with its grace timer and ready signal;
--            Attachment.Rebind is the FrameRebind payload. States, Signal, Grace and
--            Rebind.Roundtrip hold the proofs.
-- Backoff    internal/backoff/backoff.go, and dialBackoff of pkg/node/target_dial_governor.go.
-- Common     helpers: tests and conditionals, lists, bytes and big-endian fields, integers, maps.
--
-- A byte slice is a list of numbers, an integer of w bits a number whose wrap-around is written out,
-- a signed counter an integer by its sign, a duration a number of nanoseconds. Operations that hold
-- one mutex from end to end are one step. Pointers that the code compares are numbers given out in
-- order. Time, randomness and the outcome of a send that may be dropped are arguments. There is no
-- fuel: every loop of the modelled code is a recursion on a list or a number of rounds. What package
-- net makes of an address is a parameter of the routing rules.
--
-- Not modelled: the telemetry of the mailboxes (pkg/mux/qstats.go), sockets, timers as a source of
-- time; the write queues and the keepalive of a carrier; the JSON of the rules; the code that puts
-- these parts together, pkg/node/node.go and pkg/node/relays.go;
-- the configuration (internal/config) and the pairing (internal/pairing); and the parts
-- of the repository that install, configure and display: internal/deploy, internal/systemd,
-- internal/xray, internal/origin, internal/firewall, internal/dashboard, internal/controlagent and cmd,
-- which run system commands and serve HTTP.
pub mod Attachment
pub mod Auth
pub mod Backoff
pub mod Budget
pub mod Carrier
pub mod Common
pub mod CreditPlane
pub mod Frame
pub mod Governor
pub mod Mailbox
pub mod Registry
pub mod Routing
pub mod Session
