-- ===== src/Lib.antt =====
-- The example programs of this repository, each around one library: coroutine awaiters over
-- Boost.Asio, Boost.MySQL and redis++, a pool of I/O contexts, a TCP server and client, an
-- asynchronous gRPC server and client, a Drogon client, a Lambda handler, a SQL table, and the
-- printing of configuration structs.
--
-- The parts, and how they meet:
-- * Base holds what all share: tests on numbers, lists, ring arithmetic, text as lists of bytes.
-- * Coro models folly::coro tasks. A task returns, or hands an operation to the runtime and goes on
--   with its completion; `co_await` is the protocol of await_ready, await_suspend and await_resume.
--   A runtime is any function that answers operations in a state of its own, so what is stated for
--   every runtime holds for every behaviour of the network and of the peer.
-- * Asio is include/asio_util.hpp: AcceptorAwaiter, ReadSomeAwaiter, ReadAwaiter, ReadUntilAwaiter,
--   WriteAwaiter, ConnectAwaiter, TimerAwaiter, their async_ functions, and Executor.
-- * Pool is include/io_context_pool.h: the constructor, start, stop and getIoContext of IoContextPool.
--   The interface record Asio states what is relied on of io_context::run, and Pool/Tests fills it.
-- * TcpServer is src/test_tcp_server.cpp: session and start of TcpServer, over Asio and Pool;
--   TcpServer/Main is main. TcpServer/Sessions is the accepting loop and all of its sessions at once:
--   the operations that they wait for complete in any order.
-- * TcpClient is src/test_tcp_client.cpp: start, over Asio; TcpClient/Main is main, over the
--   interface of Pool to what the run of a context does. TcpClient/Connection has a client and a
--   session of the server talk over the two streams of a connection.
-- * Server is include/greeter_async_server.h: CallData and HandleRpcs of ServerImpl. The heap maps the
--   address of each CallData, which is its tag, to the object; the operations that were handed to the
--   gRPC runtime form a list. The relations Step and Reach let the runtime complete any of them and
--   the allocator choose any free address. Server/Loop is the loop of HandleRpcs with its assertions,
--   Run and the destructor. Server/Threads is HandleRpcs in any number of threads: a step is one access
--   of one thread to an object or to the queue, and the steps come in any order. Server/Threads/History
--   follows the clients that arrive and the replies that reach them. Where an operation comes back
--   without `ok`, the assertion on it ends the program, and no step of Server or Server/Threads follows.
-- * GreeterClient is include/greeter_async_client.h: the constructor and SayHello, also against the
--   model of the server; GreeterClient/Main is the thread of src/test.cpp that calls it, and
--   GreeterClient/Wire has the two talk in the bytes of Proto.
-- * Proto is src/helloworld.pb.cc and include/helloworld.pb.h: the messages HelloRequest and
--   HelloReply, their parsing, serialization, copies, swaps and accessors. The record Protobuf holds what the
--   runtime offers, and WireFormat what is relied on of it.
-- * Mysql is src/test_boost_mysql.cpp: seven awaiters, and the coroutine of main in Mysql/Main.
-- * Redis is src/test_redis++.cpp: FutureAwaiter for values and for void, and the coroutine of main.
-- * Lambda is src/test_aws_lambda.cpp: getEndpoint, createDynamoDBClient and the handler; Lambda/Main
--   is main.
-- * Drogon is src/test_drogon.cpp: the clients that take turns, the request, the web-socket handlers;
--   Drogon/Chat lets the handlers of both sides talk in any interleaving, and Drogon/Closing follows the
--   Close frames of a shutdown. Drogon/Main has the controllers and main, and Drogon/EventLoop the loop
--   of its last block.
-- * Sql is include/TestSqlppTable.h: the columns, their types and members; and, of src/test.cpp, the
--   block of main that works on the table. Sql/Statements says what a statement does to the rows, which
--   are a multiset, and Sql/Available what is relied on of the database.
-- * Demos is src/test.cpp: main, which goes through blocks of the other parts one after another, and
--   Demos/Coroutines what it hands to Folly.
-- * Yaml is src/test_yaml_cpp_struct.cpp: the overloads of to_string, named by their types, and main.
--
-- Sockets, contexts, timers and statements are named by numbers, and text is a list of bytes. The
-- numbers of machine width wrap around where the source computes with them: the cursor of the pool
-- modulo 2 ^ 64, the count of the Drogon clients modulo 2 ^ 32.
--
-- Fuel: the loops of the TCP server never end by themselves, so session and start run on fuel and
-- answer out_of_fuel and accepting when it is used up. The accepting loop is described for every
-- fuel; a session leaves its loop whenever the fuel exceeds the number of reads that can still
-- succeed, and in the talk with a client, fuel for each of the client's 102400 bytes and one more round
-- lasts until the client has ended. The digits of a decimal number run on the number itself plus one,
-- and the text reads back as the number. The TCP client's loop has the 100 rounds of the source. The
-- parser of a message runs on fuel, one unit for each field; since a field takes a byte at least, one
-- unit for each byte is enough. The endless loop of HandleRpcs runs on fuel too, and is described for
-- every fuel; after a shutdown, one unit for each outstanding operation is enough for it to end.
--
-- Not modelled: the stubs that gRPC generates; the descriptor tables of the messages and the freeing of
-- their memory; src/test_folly.cpp and src/test_boost.cpp, which call libraries on fixed inputs, but for
-- the calls of Folly that src/test.cpp has too. In Demos the threads that main detaches, and the order in
-- which coroutines that run together take their steps, are left open. Libraries enter as arguments: runtimes, the text of an error code, of a double, of a
-- thread's id or of NULL, dump of a JSON value, the YAML reader and writer, the event loops of trantor,
-- the HTTP client of Drogon, channels and stubs of gRPC, and the interface records Asio, Boost, Protobuf,
-- ArenaStringPtr and Database.
pub mod Base
pub mod Pool
pub mod Server
pub mod Sql
pub mod GreeterClient
pub mod Coro
pub mod Asio
pub mod TcpServer
pub mod TcpClient
pub mod Mysql
pub mod Redis
pub mod Lambda
pub mod Yaml
pub mod Proto
pub mod Drogon
pub mod Demos
