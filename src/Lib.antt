-- ===== src/Lib.antt =====
-- Verification of LemonServer: a center server to which terminals, a web front end and proxy servers
-- connect over TCP, with a small binary protocol, and which stores what the terminals report.
--
-- The parts and their files (paths from the repository's root):
-- - Protocol is the wire protocol, src/module/icsprotocol.hpp and icsprotocol.cpp. MessageId is the enum,
--   Errors the exceptions, Head is `IcsMsgHead`, Stream is `ProtocolStream`, whose reading and writing
--   uses are the records `Reader` and `Writer`. A message is a list of bytes.
-- - Crc is `crc32_code` and its table, src/module/util.cpp.
-- - Pool is `MemoryPool`, src/module/mempool.hpp and mempool.cpp. Addresses are numbers.
-- - Timer is `TimingWheel`, src/module/timer.hpp.
-- - Connection is `IcsConnection`, src/module/icsconnection.hpp. Receive is `handleData` on the
--   1024-byte buffer, over any `handleMessage`; Send is both `trySend` with the completion of a send.
-- - Files is `FileUpgradeManager`, src/module/downloadfile.hpp and downloadfile.cpp.
-- - Numbers is `std::strtol` with what its callers make of the result; Address is the address pattern of
--   src/module/tcpserver.cpp and icspushsystem.cpp; Config is `IcsConfig`, src/module/icsconfig.cpp, where
--   Access is the code that asks it.
-- - Program is both `main` functions up to the event loop, src/center/server.cpp and src/proxy/server.cpp,
--   with what they call of src/module/util.cpp, mempool.cpp, database.cpp and tcpserver.cpp: Center
--   and Proxy have the constructors of the servers, and Starts is when they come up.
-- - Common/Maps is `std::unordered_map` with strings for keys.
-- - Database is the statements that the servers execute, as values.
-- - Handler is what both servers have in common: code that changes a server's state, the request and the
--   response, and may throw, where a throw undoes nothing. Host is the interface that
--   `IcsConnection` wants of a server's state, Messages is `handleMessage` over it and over any
--   `handle`, and Server is the timer with `connectionTimeoutHandler`, the receive areas and the
--   completion handlers, over the interface `Node`. Fixed, Calm and Leads are what such code leaves
--   alone, what it throws, and where it leads to; Kept are the same of Messages and Server.
-- - Center is src/center/icslocalserver.hpp and icslocalserver.cpp. World is the server's state with
--   every connection object; Registry has the maps of connections with `error`, `replaced` and
--   `timeout`; Push is src/module/icspushsystem.cpp; Terminal is `IcsTerminalClient`, Web is
--   `IcsWebClient` and RemoteProxy is `IcsRemoteProxyClient`, each with one function for each
--   handler; Server is the server as a whole. Routing, and each Routes, are about the map of terminals.
-- - Proxy is src/proxy/icsproxyserver.hpp and icsproxyserver.cpp. World, Registry and Server are as
--   in Center; Centers is what goes to all centers; Terminal is `IcsProxyTerminalClient` and Center
--   is `IcsCenter`.
--
-- How they interact: a completed receive is cut into messages (Connection), each is checked and
-- opened as a stream (Protocol, Crc), a handler of the connection's class runs on it with a response
-- stream in a chunk of the pool (Handler, Center, Proxy, Pool), and the response is serialized and
-- queued (Connection). The timer counts the turns without a message. A command of the web server goes
-- to a terminal's connection, or to that of a remote proxy server, which sends it to its own
-- terminal and answers with the result; what the proxy server's terminals report goes to all centers.
--
-- Numbers are natural numbers; a field of `w` bits is cut with `% 2 ^ w` where the source stores it.
-- Only `handleData`'s loop has fuel, one more than the bytes in the buffer: each round but the last
-- takes at least 20 of them. Every other loop counts down a number that it read.
-- A function that holds a mutex is one step.
--
-- Exceptions are values. The handlers are declared throw(IcsException, otl_exception), the error
-- functions throw(): where another exception leaves one, `std::unexpected` ends the program, and the
-- field `terminated` of the server's state is set. For handlers this is `only_specified` in
-- Center/Monad, at the two handlers of the center that connect to another host.
--
-- Receive hands `handleMessage` the message, not the buffer. One handler writes into the buffer:
-- `handleTerminalMessage` calls `initHead` on the request. That changes bytes which only the pending
-- bytes of an incomplete message can show later, and the steps of the center in Center/Server/Routing
-- let the buffer of such a connection become any other.
--
-- Parameters: the clock, the outcome and the answers of database statements, the conversion of
-- GB2312 text, whether the push server and a remote proxy server can be reached, the files on the
-- disk, the text of an exception, and what uninitialised members hold; and when a program starts, the
-- parsed configuration file, and whether each call of the system succeeds.
--
-- Not modelled: log, signals, sockets and threads (input and output), the limits on the number of
-- connections, which the source stores and never uses, the pool of database connections, and the
-- vendored OTL and TinyXML. The destructor of a terminal's connection is in Center/Registry, but no
-- step of the servers runs it, so what is in a connection's queue when it is destroyed is not given
-- back here.
pub mod Common
pub mod Protocol
pub mod Crc
pub mod Pool
pub mod Numbers
pub mod Address
pub mod Config
pub mod Timer
pub mod Connection
pub mod Database
pub mod Files
pub mod Handler
pub mod Center
pub mod Proxy
pub mod Program
