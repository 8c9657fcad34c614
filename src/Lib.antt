-- ===== src/Lib.antt =====
-- A model of OxenMQ, a message library on ZeroMQ for service nodes and their clients.
--
-- A proxy thread owns all sockets and all state; worker threads run the commands and jobs that it gives
-- them, and report back. The development models the decisions of the proxy thread as functions on
-- explicit state. A pointer is a position in a list, a user function an identifier, and what the proxy
-- does to threads and sockets a list of effects, latest first.
--
-- * Access (oxenmq/auth.h): authentication levels.
-- * ConnectionId (oxenmq/connections.h): `ConnectionID`, with its `==`, `<` and hash.
-- * Address (oxenmq/address.cpp, oxenmq/address.h): addresses. Parse has the constructor of a text, Keys
--   what is assumed of the codecs of oxenc, which are a parameter; WellFormed says which addresses have a
--   text, and the modules beside it prove that texts are read back, what is accepted and what is refused.
-- * Batch (oxenmq/batch.h): `Batch<R>`, `Job` and the interface `detail::Batch` through which the proxy
--   sees them.
-- * Pool (oxenmq/worker.cpp, oxenmq/jobs.cpp, and the queues of oxenmq/proxy.cpp and oxenmq/oxenmq.cpp):
--   the workers and the queues of the proxy. Workers is about the choice of a worker, Jobs about the
--   queues, Commands about incoming commands and injected tasks, Finished about the messages of the
--   workers, Startup about the thread counts, Shutdown about QUIT. Validity holds the invariant, the
--   modules beside it prove it operation by operation, and Reachability puts them together.
--   Backpressure and QueueLimits are about the queue limits of categories, Handing and Progress about the order in
--   which jobs are given to workers, Growth and Quitting about what follows QUIT.
-- * Peers (oxenmq/connections.cpp, and the service nodes of oxenmq/auth.cpp): the peers and connections of
--   the proxy. Connecting has its operations, ServiceNodes the set of active service nodes, Builtins the
--   commands of peers that the proxy handles itself, and Senders (oxenmq/worker.cpp) the peer that a
--   message is from.
-- * Auth (oxenmq/auth.cpp): who may run a command, and the ZAP handler, which accepts connections.
-- * Commands (oxenmq/oxenmq.cpp): the registry of categories, commands and aliases, which the proxy asks
--   for each message before Auth and Pool.
-- * Control (oxenmq/oxenmq.h, oxenmq/proxy.cpp, oxenmq/connections.cpp, oxenmq/oxenmq-internal.h): messages
--   to remotes. Interface has the public functions, which write control messages, Parsing what the proxy
--   reads from them, Sending `proxy_send`, Replying `proxy_reply` and `proxy_bind`. They use the peers and
--   connections of Peers; Delivery, Connections, Rounds, Retries, Outcomes, Hanging, Reuse, Arrivals, Answered
--   and Reachability are the proofs.
-- * Polling (oxenmq/proxy.cpp): the turns of the connections in `proxy_loop`, whose messages go to Peers
--   (builtin commands) or to Commands, Auth and Pool.
-- * Setup (oxenmq/oxenmq.cpp): the keys of an instance, and the listeners added before and after `start()`,
--   which Control binds.
-- * Timers (oxenmq/jobs.cpp): timers, whose jobs go to the queues of Pool.
-- * Subscription (oxenmq/pubsub.h): `Subscription<UserData>`, which keys its map by ConnectionId.
--
-- Loops are structural recursion on the list that they run through. The digits of a
-- number n have the fuel n + 1, which reading them back shows to be enough; the
-- retry loop of `proxy_send` has the fuel k + 1 for k incoming peers, which its termination proof shows to
-- be enough. A pass of the polling loop has any fuel; one more than the connections and pending messages is
-- enough. A size_t keeps its
-- wrap-around where the code can reach it (`--jobs_outstanding`); counters that the code asserts to be
-- above 0 are natural numbers.
--
-- Not modelled: the rest of the polling loop and the thread body of a worker, ZMQ sockets and their options, log
-- lines, and the serialisation of control messages (oxenc), whose contents are the arguments of the
-- handlers here.
mod Common
pub mod Access
pub mod Address
pub mod ConnectionId
pub mod Batch
pub mod Pool
pub mod Subscription
pub mod Peers
pub mod Commands
pub mod Auth
pub mod Control
pub mod Polling
pub mod Setup
pub mod Timers
mod Examples
