-- ===== src/TcpServer/Main.antt =====
-- src/test_tcp_server.cpp: main. A thread runs the pool beside the server; `threads` is what it has
-- started of the pool when the server takes its first context.
use example.Base.{ℕ, List, [], Text}
use example.Coro.{Runtime, Event, Outcome, run}
use example.Asio.{ErrorCode, Operation, Done}
use example.Pool.{Thread, ok, throw, make_pool}
use example.TcpServer.{
  TcpServer, StartEnd, accepting, no_context, out_of_range, system_error, start,
}

-- Where main is: the server is still accepting, the catch clause has run, `std::terminate` was called
-- since an exception destroys `thd` while it is joinable, or a read went outside the pool.
pub data Exit : Type 0 where
  serving caught terminates undefined : Exit

abbrev pub leave : StartEnd → Exit
leave accepting = serving
leave no_context = undefined
leave out_of_range = terminates
leave (system_error c) = terminates

-- What the constructor of `thd` comes to: a thread, or an exception of type `std::system_error`.
pub data ThreadMade : Type 0 where
  thread_started thread_refused : ThreadMade

abbrev pub left_with :
    {S : Type 0} → Outcome (Event Operation Done) StartEnd S → List (Event Operation Done) × Exit
left_with o = (o.events, leave o.result)

unfoldable pub main :
    {S : Type 0}
    → (ErrorCode → Text)
    → Runtime Operation Done S
    → ℕ
    → ℕ
    → List Thread
    → ThreadMade
    → S
    → List (Event Operation Done) × Exit
main message runtime fuel acceptor threads made s = elim (make_pool 10) [
  | throw e ↦ ([], caught)
  | ok p ↦ elim made [
    | thread_refused ↦ ([], caught)
    | thread_started ↦
        let server : TcpServer = record {
          pool = record p { threads = threads };
          executor_map = [];
        } in
        left_with (run runtime (start message fuel acceptor server) s)
  ]
]
