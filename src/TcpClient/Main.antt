-- ===== src/TcpClient/Main.antt =====
-- src/test_tcp_client.cpp: main, where a thread runs the context beside the client.
use example.Base.{ℕ, true, false, List, [], ◌∷◌, Text, codes, ◌==◌, if◌then◌else◌}
use example.Coro.{Runtime, Event, run}
use example.Asio.{ErrorCode, Operation, Done, stop_context}
use example.Pool.{IoContext, Asio}
use example.TcpClient.{End, finished, gave_up, threw, start}

-- How the program ends: by itself, never, since `thd.join` waits for ever, or by `std::terminate`,
-- since an exception destroys the thread object while it is joinable.
pub data Exit : Type 0 where
  exits joins_for_ever terminates : Exit

-- The context with the work object of the thread that runs it.
abbrev pub thread_context : ℕ → IoContext
thread_context id = record { id = id; outstanding_work = 1; stopped = false }

-- What an operation does to it.
abbrev pub applied : Operation → IoContext → IoContext
applied (stop_context n) c = if n == c.id then record c { stopped = true } else c
applied op c = c

abbrev pub context_after : List (Event Operation Done) → IoContext → IoContext
context_after [] c = c
context_after ((op, d) ∷ es) c = context_after es (applied op c)

abbrev pub join_thread : Asio → IoContext → Exit
join_thread asio c = if asio.run_returns c then exits else joins_for_ever

abbrev pub wait_for_thread : Asio → End → IoContext → Exit
wait_for_thread asio finished c = join_thread asio c
wait_for_thread asio gave_up c = join_thread asio c
wait_for_thread asio (threw ec) c = terminates

unfoldable pub main :
    {S : Type 0} → Asio → (ErrorCode → Text) → Runtime Operation Done S → S → ℕ → ℕ → Exit
main asio message runtime s io_context socket =
    let o = run runtime (start message io_context socket (codes "127.0.0.1") (codes "8848")) s in
    wait_for_thread asio o.result (context_after o.events (thread_context io_context))
