-- ===== src/Lib.antt =====
-- The servers of FKGoServer, a game server in Go: what they compute, and the laws that make them
-- right.
--
-- The program. Clients talk to the agent, which reads binary packets (FKLib_Common/Packet), finds the
-- message by its number (FKLib_Common/MsgDefine) and forwards the rest to a game server. Micro-
-- services behind gRPC keep rankings (FKGRpc_Rank), hand out unique numbers (FKGRpc_Snowflake) and
-- pass chat messages on from Kafka to subscribers (FKGRpc_Chat). Servers find each other through a
-- pool of connections that follows etcd (FKLib_Common/Service).
--
-- The files.
-- - Base, Base/Tests, Base/Lists, Base/Int, Base/Map: shared names, Boolean tests, list laws, signed
--   integers and Go maps as association lists.
-- - Rank/SortedSet: FKGRpc_Rank/SortedSet/SortedSet.go, the slice behind a small ranking. Each method is a
--   function on the slice: `Insert` is `insert`, `Update` is `update` and so on; the loops are
--   recursions over the slice, and `none` is a panic.
-- - Rank/Tree: FKGRpc_Rank/Dos/Dos.go, the red-black tree behind a large one. A node is a subtree with the
--   frames above it, so that a change of the node and of its parents is a rebuilt path. Rank/Tree/Insert
--   and Rank/Tree/Remove are `Insert` and `Delete` with their cases, `insert_case1` and so on by their names;
--   Rank/Tree/Groups, Order and Entries say what a tree holds, as a list of scores with ids and as the slice
--   would hold it, Balance and Place what makes it red-black, and Lookup, Locate and Ranks are about its
--   readers.
-- - Rank/Set: FKGRpc_Rank/RankSet/RankSet.go, a rank set that moves between the slice and the tree.
-- - Rank/Service: FKGRpc_Rank/Framework/Service.go, the sets by id, their dump to a key-value store and the restore.
-- - Packet, Packet/Float: FKLib_Common/Packet/Packet.go. A reader `ReadX` is `read_x` and returns its
--   result, its error and the packet; a writer `WriteX` is `write_x`. Packet/Pack: Pack.go, whose
--   reflected value is a data type of the kinds that the code tells apart.
-- - Messages: FKLib_Common/MsgDefine/Proto.go, the structs with their `Pack` methods and `PKT_` readers.
--   Messages/Codes: MsgDefine.go.
-- - Chat: FKGRpc_Chat/Framework/Service.go. Chat/EndPoint is one endpoint with its inbox and consumers,
--   Chat/Queries its range queries and its snapshot, Chat/Server the endpoints by id and the messages
--   from Kafka. Chat/EndPoint/Log states what an endpoint promises, against the log of all messages.
-- - Snowflake: the UUID generator of FKGRpc_Snowflake/Framework/Service.go, over a list of clock readings.
--   Snowflake/Counters: `Next` and `func_InitMachineID` there, over states of etcd and lost answers.
-- - WordFilter: FKGRpc_WordFilter/Framework/Service.go, over the words of a segmenter.
-- - Numbers: FKLib_Common/Utils/Numbers.go, the tables of game data; a sheet is its rows of cells.
-- - Agent: FKServer_Agent. Agent/Frame is the framing of Framework/Buffer.go and InitApp.go, Agent/Session
--   the session with its handlers (Msg/Msg_C2A_Handle.go, Framework/UserMsgHandler.go, Forward.go,
--   TimerHandler.go), its send queue (Buffer.go) and its loop over events (ClientSessionHandler.go), and
--   the key exchange of FKLib_Common/DH/DH.go.
-- - Game: FKServer_Game. Game/Stream is the registry of Logic/Registry.go, the handler of
--   Msg/Msg_A2G_Handle.go and `Stream` of Framework/Service.go: the loop of one stream over its events, and
--   the actions of all streams, in any order, on the registry that they share.
-- - Discovery: FKLib_Common/Service/Service.go. Discovery/Pool is the pool of connections with its
--   operations, and the watcher over the changes that etcd reports.
-- The Tests modules run the code on small inputs.
--
-- Bounds and fuel. A Go map is an association list with one entry for each key. Words keep their width
-- where the code converts or wraps (`% 2 ^ w`); positions, lengths and the offsets of a log, which Go
-- keeps in 64 bits, do not overflow here. The climb of `delete_case1` runs on fuel, one unit for each
-- call at a parent: it gets one more than there are frames above the node, as its theorem asks for.
-- Loops are recursions over a list or a count; the agent's loop over incoming frames, which ends with
-- the connection, runs on fuel, one round for each frame. The wait of the UUID generator is a
-- recursion over the readings of the clock, and `none` stands for a clock whose readings run out.
--
-- Parameters. The bits of floats (Go's `math`), the decoding of Kafka keys (`json`), RC4,
-- `big.Int.Exp`, `filepath.Dir`, MessagePack, the segmenter, the bucket of BoltDB, etcd with its
-- compare-and-swap, the order in which Go visits a map, and the printing and parsing of numbers are
-- parameters; what connections and the random generator answer to one client message is an argument.
--
-- Not modelled. Code under vendor and generated gRPC code; the gRPC, etcd, BoltDB and Kafka calls;
-- start-up, signals, logging and profiling; the other services and tools, which are listed with the
-- components. Locks are held through an operation, so operations are atomic here.
pub mod Base
pub mod Rank
pub mod Packet
pub mod Messages
pub mod Chat
pub mod Snowflake
pub mod Agent
pub mod Discovery
pub mod Game
pub mod Numbers
pub mod WordFilter
