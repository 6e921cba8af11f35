-- ===== src/Lib.antt =====
-- A model of the Fledge south plugin for TASE.2 (ICCP), a C++ program that polls and commands a
-- TASE.2 server over libtase2.
--
-- The parts of the program and their files:
--   * Common: texts, lists, dictionaries and signed integers over the native numbers, and the
--     functions of the C and C++ standard libraries that the code calls (stoul, stol, atoi,
--     strtok_r, std::string's find and substr).
--   * Json: what a document of rapidjson holds, and its accessors. An accessor that is called on a
--     value of another type fails an assertion; this is the result `fault`, and an exception is
--     `thrown`. Json/Shape says of what shape a value is, Json/NoFault which accessors then succeed.
--   * DpType: DPTYPE, its names, and the tests for a quality and a time stamp
--     (include/tase2_client_config.hpp, src/tase2_client_config.cpp, src/tase2_client.cpp).
--   * Config: TASE2ClientConfig (src/tase2_client_config.cpp). Config/TypeCheck is
--     traverseAndCheckTypes; Config/Protocol with Connections, Osi, ParseSelector, Datasets and
--     TransferSets is importProtocolConfig; Config/Exchange is importExchangeConfig; Config/Tls is
--     importTlsConfig. A piece of an import is a `Step` (Config/Steps): it changes the
--     configuration and says how it goes on, so what an early return or an exception leaves behind
--     is part of the model. Config/Schema is the shape that the three documents are meant to have,
--     read off the accessors that are called with no test.
--   * Connection: TASE2ClientConnection (src/tase2_client_connection.cpp). Connection/Prepare and
--     Connection/Tls are prepareConnection, Connection/Reports is m_configDatasets and
--     m_configDsts, Connection/Thread is one round of _conThread with the functions that other
--     threads call. The calls of libtase2 are recorded in order in the state, and what the library,
--     the file system and the clock answer in a round is an argument. Connection/Thread/Handles
--     reads the calls that make and destroy endpoints and clients off that record, and
--     Connection/Thread/Serving is about the states in which both are there.
--   * Client: TASE2Client (src/tase2_client.cpp). Client/Handling is what it does with
--     values that are polled, reported or acknowledged, Client/Values is about polled values,
--     Client/Commands is sendCommand and the two kinds of set points, Client/Flags is about the
--     texts of a value's quality, Client/Clock is the clocks, Client/Monitor is the life of the
--     client with its monitoring thread, Client/Monitor/Waiting the loop in which that thread waits
--     for a connection, and Client/Monitor/Waiting/Pass its pass over the connections with that loop.
--   * Plugin: TASE2 (src/tase2.cpp), its operations (Plugin/Operation) and the entry points that
--     Fledge calls (Plugin/Entry, src/plugin.cpp). Plugin/Entry/Lifecycle is the object under any
--     sequence of these calls, Plugin/Default the default configuration, and Plugin/Shaped the import
--     of documents that have the shape of Config/Schema.
--   * System: the monitoring thread and the threads of the connections, interleaved
--     (src/tase2_client.cpp, src/tase2_client_connection.cpp). A step is one round of a connection's
--     thread, or what the monitoring thread does from one test of its loops to the next. A round is
--     taken as a whole: that the two kinds of threads write the same members with no lock in common
--     is not modelled here; Connection/Thread/Race shows what follows from one such interleaving.
--     System/Launch is the state that TASE2Client::start makes, and System/Projection what a single
--     connection sees of the steps of all. System/Unserved and System/Stuck are about connections
--     that are the active one without a client, or with an endpoint that is lost for good.
--   * Examples: concrete documents, connections and points, at which the theorems are applied.
--
-- How they interact: an entry point makes TASE2 import three documents into a configuration and
-- start a client. The client makes one connection for each configured address. The monitoring
-- thread asks the connections one after the other to connect; each connection's own thread goes
-- from state to state, and once connected polls the client's values, which are ingested under the
-- labels of the exchange configuration. Two threads that share a connection are steps of one
-- relation (Connection/Thread/Reachable).
--
-- Bounds and fuel: the loop of the type check runs on fuel, and the number of values of the
-- document is enough. The loop that waits for a connection runs on fuel too; for a timeout of n
-- milliseconds n / 10 + 2 tests are enough, since it sleeps for ten milliseconds between two. All
-- other loops are structural. A number that is converted to a uint64_t is taken modulo 2 ^ 64, and
-- the length of a certificate's name wraps as a size_t does. The polling clock is a natural number
-- that does not wrap. An int that atoi cannot represent is undefined in C and has a result of its
-- own.
--
-- Parameters: libtase2 (values, flags, endpoints, clients, transfer sets), the JSON parser,
-- inet_pton, atof, Fledge's configuration category and the file system. They are arguments of the
-- definitions that use them; the theorem on the quality's texts assumes that three of libtase2's
-- masks have a bit set, and the one on the default configuration that the parser reads its texts as
-- they are written.
--
-- Null handles: a round that dereferences the null pointer to the OSI parameters, or that would set
-- the parameters of a null endpoint or connect a null client, ends as `crashed`, since what the code
-- or libtase2 does then is not known. Of the other calls of libtase2 the arguments are recorded; that
-- cleanUp can hand a null client on is in that record (Connection/Thread/Cleanup/NullClient), and
-- nothing is said of what libtase2 does with it. A client that a second start overwrites stays in the
-- model among those that run on with no pointer to them.
--
-- Not modelled: logging, the descriptions in the default configuration, the connection status that
-- is written and never read, the tests and the build files. The order in which an unordered map is
-- run through is that of an association list, and no theorem depends on which order that is
-- (Client/Values/Order).
pub mod Common
pub mod Json
pub mod DpType
pub mod Config
pub mod Connection
pub mod Client
pub mod Plugin
pub mod System
pub mod Examples
