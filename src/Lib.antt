-- ===== src/Lib.antt =====
-- A model of a caching HTTP proxy, docker-deploy/src of the repository.
--
-- The program is a server with one thread for each client. ClientHandler receives bytes and hands
-- them to HttpRequest::parse_request, RequestHandler answers a parsed request from the CacheManager,
-- through a tunnel, or by forwarding it to a server, whose answer HttpResponse::parse_response
-- reads, and the Logger writes a line for each step.
--
-- Which file models what (paths from docker-deploy/src):
--   Text, Text/Number   the operations of std::string, std::istringstream, std::stoul, std::stoi and
--                       std::to_string that the program uses, on lists of bytes
--   Headers             the header map and the static helpers of HttpRequest.cpp (valid_field_name,
--                       trim_field_value, can_duplicate_field_name), with the rule for a field that
--                       is there already; Headers/Joined adds all the fields of a header
--   Message             the loop over the header lines of HttpRequest.cpp and HttpResponse.cpp
--   Message/Body        the body by Content-Length, by chunks and with a trailer
--   HttpRequest         HttpRequest.cpp: parse_request as a whole, and serialize
--   HttpResponse        HttpResponse.cpp: parse_response, is_cacheable and serialize
--   CacheManager        CacheManager.cpp; CacheManager/Calls runs sequences of calls on one cache, and
--                       CacheManager/Slots is what the cache promises, without addresses and map
--   Logger              Logger.cpp
--   Sending             reliable_send of RequestHandler.cpp
--   Forwarding          forward_request of RequestHandler.cpp
--   Tunnel              handle_connect of RequestHandler.cpp
--   RequestHandler      handle_request of RequestHandler.cpp
--   ClientHandler       ClientHandler.cpp: the loop of the thread of a client
--   ProxyServer         ProxyServer.cpp: the list of threads, the queue and the reaper
--   ProxyServer/Shutdown  the condition variable of the reaper, the stop flag and the destructor
--   ProxyServer/Construction  the constructor, start() up to its loop, and proxy.cpp
--   FakeCache           FakeCache.cpp, a stand-in for the cache
--   LineTest            testing.cpp, which tries the reading of a request line
--   Libc                what is taken from the C library, as arguments
-- The children of these modules hold theorems, and Tests the runs on concrete inputs.
--
-- How the code is modelled. A byte string is a list of numbers. A parser call takes the object and
-- the buffer and gives one of the ends in Outcome: it returns true or false, an exception leaves it, it
-- reads outside a string, or the fuel of the model is used up. Sums of `uint32_t` keep their wrap round
-- modulo 2^32; an `int` position is a number, or the 32-bit pattern of one that has wrapped round,
-- and texts are taken to be shorter than 2^31 bytes. The iterators of the cache are addresses of nodes, so
-- that one that outlives its node shows. Each section under a lock is one step, and what other threads
-- do between two sections of a call is an argument of the call. Sockets are scripts of what the calls of
-- `send`, `recv` and `select` return; a call for which the script has nothing left does not return. The
-- clock is an argument, once for each call of `std::time`.
--
-- Expiry. The times are those of the code: CacheManager adds a day to max-age where a response has no
-- Expires field, so that an entry with max-age=0 is served for a day, and an expired entry stays in the
-- list. test_cases.txt and the sheet of requirements say otherwise (Tests/Repeats has a run).
--
-- Fuel. The loop over header lines and the loop over trailer lines run on the length of the text and
-- one. The loop over the chunks runs on fuel that the caller gives: each round takes at least the two
-- bytes of a line end, unless a sum wraps round.
--
-- Not modelled: test-http.cpp, assertions that do not compile against the headers beside it, and the
-- two functions that only print, print_headers and print_cache_list. Sockets, threads and the clock are
-- arguments, as said above.
pub mod Prelude
pub mod Text
pub mod Headers
pub mod Libc
pub mod Message
pub mod HttpRequest
pub mod HttpResponse
pub mod LineTest
pub mod Logger
pub mod CacheManager
pub mod Sending
pub mod FakeCache
pub mod Forwarding
pub mod Tunnel
pub mod RequestHandler
pub mod ClientHandler
pub mod ProxyServer
mod Tests
