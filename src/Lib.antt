-- ===== src/Lib.antt =====
-- A verification library for cogame, a game server in Go: a gateway that holds the clients' TCP
-- connections, a lobby service that keeps game rooms in MongoDB, a login service, a center service that
-- commands the nodes, and the pools, limiters, load balancers, queues and actors they share.
--
-- The parts and their files (paths from the repository's root):
--   Base         lists, maps, Boolean tests and integers that the other modules share. A Go map is an
--                association list; an int32 or int64 is the signed reading of its low bits.
--   Model        internal/model: Room, RoomPlayer and User.
--   Database     internal/database/mongodb: RoomRepository and the one method of UserRepository that
--                the lobby calls, over the MongoDB driver, which is the record Mongo, with its
--                documented laws in MongoLaws and MongoListLaws. Database.Memory is a driver that has
--                the laws. MongoManager (Manager, Connecting) takes the record Driver and its DriverLaws.
--   Lobby        internal/server/lobby_server.go: the handlers CreateRoom, JoinRoom, LeaveRoom and
--                GetRoomList, each cut where the code has its early returns. The state is the
--                database and the counter of room ids.
--   Pool         internal/pool: GenericPool with the steps of goroutines that use it, the pools of
--                messages, and ByteBufferPool with what its sync.Pools give back as a choice.
--   Security     internal/security/limiter.go: CheckLimit and the cleanup. The token bucket of
--                golang.org/x/time/rate is a parameter.
--   Network      internal/network: a Connection over the bytes that arrive in segments, the loop of
--                handleConnection (Serve), and TCPServer with the steps of its goroutines (Server,
--                Steps). The server uses the pool and the limiter above.
--   Discovery    internal/discovery/etcd.go: the two load balancers, the cache of services with its updates
--                (Refresh) and its watch (Watching), and the registry with its mutex (Registry, ById),
--                over the etcd client as a parameter.
--   Gateway      internal/server/gateway_server.go: HandleMessage and what it calls, over the
--                limiter, the discovery and the connection above; the protobuf library, the login
--                service and the user cache are parameters.
--   Monitoring   internal/monitoring/monitoring.go: AlertManager, its rules and what its channels are
--                sent; the metrics and what is recorded in them (Metrics, Recorded), over Prometheus, which
--                is a record with its laws in PrometheusLaws.
--   Actor        internal/actor: BaseActor with the turns of its loop (Mailbox), and ActorSystem with
--                the calls it makes of its actors (System).
--   Login        internal/server/login_server.go: Login, Logout, ValidateToken and RefreshToken, over the
--                sessions and users of internal/cache. The Redis client is the record Redis, with its
--                laws in RedisLaws; the queries of UserRepository take a driver, Accounts, which has MD5 too.
--   Queue        internal/mq: NSQManager over the NSQ client, which is the record Nsq, with its laws in
--                NsqLaws (Manager, Consumers), and the messages with their handlers (Messages).
--   Node         internal/server/server.go and system_service.go: the ports of the configuration
--                (Config), the start, the stop and the load loop of BaseServer (State), over the registry,
--                the connections and the actors above, the commands that nodes take (System), and the gRPC
--                methods of SystemService (Service, Answers).
--   Center       internal/server/center_server.go: GetServiceList and GetClusterStatus (Services), and
--                the commands to nodes (Commands), over the registry and the queue above.
--   Cache        internal/cache/redis.go: Lock and Unlock (Locks), by clients that share them, over the
--                calls of LockClient with its laws in LockLaws.
--   Log          internal/logger: the configuration (Config), Logger (Logger), the global logger (Global)
--                and the loggers for one purpose (Kinds, Business), over zap, which is the record Zap
--                with its laws in ZapLaws.
-- The times of calls are arguments, or come from the clock of the driver. Loops over lists are
-- structural; the loop of handleConnection runs on the list of the times of its turns, which ends
-- where the server is stopped; each turn takes a message, so that a turn more than there are
-- messages is enough. A run of goroutines is a sequence of steps, in any order.
--
-- Not modelled: the log lines of the other parts, the statistics, the HTTP routes of monitoring and the
-- metrics of the process, the reading of files, the construction and wiring of servers, generated code,
-- the managers of pools, most of the Redis manager, the room cache, and the lease of etcd.
pub mod Base
pub mod Model
pub mod Database
pub mod Lobby
pub mod Pool
pub mod Security
pub mod Network
pub mod Discovery
pub mod Gateway
pub mod Monitoring
pub mod Actor
pub mod Login
pub mod Queue
pub mod Node
pub mod Center
pub mod Cache
pub mod Log
