-- ===== src/Lib.antt =====
-- LearnInLinux: the network servers, the thread-safe queues, the pools and the shell of the repository, as
-- functions and step relations, with the theorems that make them correct.
--
-- The parts and the files that model them:
--   Common            lists over native numbers, Boolean tests, `int` (Common/Int: 32 bits, an
--                     overflow is a fault), and Result (Common/Faults), whose faults are the ways in
--                     which C++ code can end other than by returning: undefined behaviour, a failed
--                     assert, exit. Common/Threads sums weights over the threads of a program.
--   Text              what the code uses of std::string, atoi and std::to_string, by their documents.
--   Reactor           Reactor/reactor. Protocol.hpp is Reactor/Protocol: SpliteMessage is
--                     `splite_message`, Request::Serialize and Request::Deserialized are
--                     `Request.serialize` and `Request.deserialize`, and so for Response. main.cc is
--                     Reactor/Calculator (`calculator`) and Reactor/NetCal (NetCal is `net_cal`).
--                     Sock.hpp and Epoll.hpp are Reactor/Sock and Reactor/Epoll. TcpServer.hpp is
--                     Reactor/Server: a connection is an object on a heap that can be deleted,
--                     AddConnection, Accepter, Recver, Sender, Excepter, LoopOnce and Dispather are
--                     the functions of these names.
--   SelectServer      11-4/selectServer/selectServer.hpp: Accepter, Recver, HandlerEvent and one round
--                     of Start (`start_once`), over the array of descriptors.
--   PollServer        11-4/pollServer/pollServer.hpp, in the same way.
--   LengthProtocol    10-23/NetCal/Protocol.hpp: Encode and Decode, and the loop of CalServer.cc
--                     (`serve`), with jsoncpp as two parameters.
--                     LengthProtocol/Json is the texts of requests and responses, with what the code
--                     calls of jsoncpp as a record; LengthProtocol/Server is TcpServer.hpp, Sock.hpp,
--                     Recv, Send and calculator(sock) over the calls of a kernel.
--   Http              10-25: Util::cutString (Http/Cut) and HandlerHttpRequest of HttpServer.cc;
--                     Http/Server is HttpServer.hpp: the constructor, and Start as the steps of the
--                     parent and of a child process for each client, with descriptors of their own.
--   RingQueue         importent-code/UdpSocket/RingQueue.hpp: push and pop as the steps of any number
--                     of threads, with semaphores and mutexes.
--   BlockQueue        importent-code/BlockQueue/BlockQueue.hpp: push and pop as the steps of any number
--                     of threads, with a mutex and two condition variables.
--   ThreadPool        10-21/ThreadPool/threadPool.hpp: the workers (routine) and pushTask in the same
--                     way; ThreadPool/Singleton is getThreadPool.
--   PoolServer        10-21/tcp_server.hpp, which hands every client to the thread pool: initServer,
--                     start, and in PoolServer/Services service, change and dictOnline.
--   ProcessPool       10-1/processpool: the descriptors of the pipes, ctrl_process and the shutdown.
--   EpollServer       11-6/epoll_server: EpollServer.hpp and Epoll.hpp.
--   UdpChat           importent-code/UdpSocket/UdpServer.hpp: Recv and Boardcast as the steps of two
--                     threads over the table of users and the ring queue.
--   UpperServer       importent-code/TcpServer/TcpServer.cc: init, loop and transervice.
--   EarlyReactor      11-7: TcpServer.hpp and Epoll.hpp, the first form of the reactor.
--   Shell             9-19/shell/myshell.c: one round of main (`round`) on the line that was read:
--                     CheckRedir (`check_redir`), g_argv with its bounds (`parse`), the commands of
--                     the shell itself (`obey`) and the calls of the child (`child`).
--   Wire              what the servers that wait for one client rely on of its socket.
--
-- How they interact: Reactor/Server waits by Reactor/Epoll, reads and writes by the kernel's calls,
-- cuts its input by Reactor/Protocol and hands every message to a handler, which is a parameter of
-- its functions; Reactor/NetCal gives `net_cal` for it. SelectServer, PollServer, EpollServer and
-- EarlyReactor use Reactor/Sock. PoolServer pushes its tasks to ThreadPool, and
-- LengthProtocol/Server answers with Reactor/Calculator; Http/Server takes its Sock.hpp from there.
-- A child of Http/Server runs the handler of Http on what its client sends. UdpChat takes from RingQueue that its
-- values leave it in their order. The kernel is a parameter, Reactor/Os: a state and one function
-- for each system call that is made. Laws of the kernel that a theorem needs are named hypotheses
-- (Reactor.Server.Table.Laws, SelectServer.Invariant.Laws, EpollServer.Watched.Laws,
-- EarlyReactor.Entries.Laws, Wire.Wire; for jsoncpp LengthProtocol.Json.Laws), and every such theorem is applied to a concrete kernel in the
-- Examples of its part.
--
-- Bounds and fuel: `splite_message` runs its loop with one round more than the buffer has bytes, and
-- each round takes one away. The loops of Accepter, Recver and Sender end when the kernel says that
-- it would block, those of service, transervice and calculator(sock) when the stream ends; they have
-- fuel, and the theorems on them say how many rounds are enough for what the kernel delivers.
-- Dispather and Start never return: they are modelled as any number of rounds. `int` is 32 bits and
-- size_t 64, with what the code does where the one is turned into the other. The words of a line of
-- the shell are taken in as many rounds as the rest of the line has bytes, and one more.
--
-- Not modelled: log lines, but for the pointers that they read; clients; destructors of objects that
-- live as long as the program; main functions that read a port and start a server; the exercises on
-- pipes, signals, shared memory and files, which are system calls with no logic of their own; the
-- variants of the queues, pools and servers that differ from those above in small edits.
pub mod Common
pub mod Text
pub mod Reactor
pub mod Wire
pub mod RingQueue
pub mod SelectServer
pub mod LengthProtocol
pub mod Http
pub mod PollServer
pub mod BlockQueue
pub mod ProcessPool
pub mod EpollServer
pub mod ThreadPool
pub mod PoolServer
pub mod UdpChat
pub mod UpperServer
pub mod Shell
pub mod EarlyReactor
