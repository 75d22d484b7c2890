-- ===== src/Lib.antt =====
-- Virtual Flight Radar Backend: a service that receives reports of aircraft, of the wind, of the
-- air pressure and of its own position from feeds over the network, and sends what it knows as
-- sentences, one text per second, to the clients of its own server.
--
-- How the parts interact. A client (src/client) holds the connection to one endpoint and hands each
-- line that it reads to its feeds. A feed (src/feed) has its parser (src/feed/parser) unpack the
-- line into a new object (src/object) and updates a container (src/data) with it. Once per second
-- the main loop has the containers process their objects into sentences (src/data/processor) and
-- gives the text to the server (include/server), which writes it to every connection.
--
-- Which file models which part, a function under the source's name in snake case:
--   Double          what is used of `double`: an interface, filled only by whole numbers, in the tests
--   Math            include/util/math.hpp
--   TimeStamp       include/object/TimeStamp.hpp; DateTime has the clock, src/object/impl
--   Object          src/object: Object, Aircraft, GpsPosition, Atmosphere, Wind. An object of a
--                   derived class is a record with its base as a field; `tryUpdate` gives the object
--                   after it and the Boolean that it returns
--   Data.Processor  src/data/processor and include/data/processor
--   Data            src/data: AircraftData, GpsData, AtmosphereData, WindData. A method takes the
--                   container and gives it back; each holds the mutex throughout and is one step
--   Feed.Parser     src/feed/parser. `unpack` gives the object, or none where it returns false: the
--                   feeds drop the object then
--   Feed.Feeds      src/feed
--   Server          include/server. The socket and the network interface enter by their answers
--   Server.Interface, Server.Net
--                   src/server/net/impl: the network interface with its sockets, and the server over it
--   Client          src/client. A handler takes an error code and the client, and gives the client
--                   and the calls that it makes on the connector
--   Client.Connector
--                   src/client/net/impl. A call leaves a pending operation, and what completes is
--                   chosen by the network; Joint has a client and its connector together
--   Client.Manager  src/client/ClientManager.cpp and ClientFactory.cpp; Threads has the threads
--   Feed.Factory    src/feed/FeedFactory.cpp
--   Config          src/config, include/config and include/util/utility.hpp
--   Log             src/util/Logger.cpp and include/util/Logger.hpp
--   Vfrb            src/VFRB.cpp: a round of the main loop; System has the program under the lines
--                   that its feeds receive, its rounds and what happens to its server, in any order;
--                   Program has run from its start to its end: the threads of the clients, the server
--                   on its interface and the listener for signals
--   Signals         src/util/SignalListener.cpp
--   Main            src/main.cpp
--   Tests           concrete data and the statements at work on it
--   Common          numbers, texts, printing and reading of numbers
--
-- Bounds. A text is a list of bytes. Machine integers keep their wrap-around: `uint8_t` and
-- `uint32_t` counters by a remainder, `int32_t` by Common.Int. The printing of numbers recurs on as
-- much fuel as the number itself, and a number has no more digits than that. The reads that follow
-- what the network delivers (Client.Connector.Stream) recur on the length of the buffer, since each
-- takes a byte at least. `snprintf` cuts at the 4095 bytes that its buffer has room for. No other
-- loop needs fuel: each is structural on a list or on the number of fields that are left.
--
-- What comes from outside is a parameter: the matching of regular expressions
-- (Feed.Parser.Regex), property trees and INI files (Config.Tree), the reading of numbers by streams
-- (Config), the parsing of arguments and the file system (Main), hashing (Client.Manager), the
-- clock of the system. What Boost.Asio completes an operation with, and when, is an event.
--
-- Not modelled: the lines that the parts log, and exceptions of Boost.Asio other than that of
-- `remote_endpoint`: `set_option` in `handleConnect` (src/client/net/impl) may throw one where the
-- socket has been closed meanwhile, and creating a thread or allocating memory may fail. Between the calls of different threads any order is
-- possible; the statements on runs quantify over all sequences of calls.
pub mod Common
pub mod Double
pub mod TimeStamp
pub mod Object
pub mod Math
pub mod Data
pub mod Feed
pub mod Server
pub mod Client
pub mod Config
pub mod Vfrb
pub mod Signals
pub mod Log
pub mod Main
pub mod Tests
