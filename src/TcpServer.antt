-- ===== src/TcpServer.antt =====
-- src/test_tcp_server.cpp: an echo server on a pool of contexts.
-- `message` is `error_code::message`, a library function. Both loops of the program are endless: they
-- run on fuel here, and `out_of_fuel` and `accepting` stand for one that is still going.
pub mod Accepting
pub mod Apart
pub mod Closing
mod Tests
pub mod Echo
pub mod Fresh
pub mod Keeping
pub mod Main
pub mod Owed
pub mod Pending
pub mod Serving
pub mod Sessions
use example.Base.{
  ℕ, zero, suc, Bool, true, false, Option, none, some, List, [], ◌∷◌, ◌++◌, ◌==◌, if◌then◌else◌,
  Text, codes,
}
use example.Base.Slices.{take, zeroed}
use example.Coro.{Task, co_return, suspended, ◌>>=◌, ◌>>◌, perform}
use example.Asio.{
  ErrorCode, failed, Line, info, error, Operation, Done, AsioTask, Executor, add, async_accept,
  async_read_some, async_write, timeout, open_acceptor, reuse_address, bind, listen, open_socket,
  shutdown, close, expires_after, log,
}
use example.Pool.{IoContext, IoContextPool, get_io_context}

abbrev pub max_length : ℕ
max_length = 1024

pub data LoopEnd : Type 0 where
  broke out_of_fuel : LoopEnd

module _ (message : ErrorCode → Text) where
  -- One round of the session's loop: whether it goes on.
  unfoldable pub echo_round : ℕ → AsioTask Bool
  echo_round sock = do
    (ec, length, buffer) ← async_read_some sock (zeroed max_length)
    if failed ec
        then (do perform (log (error (codes "[session] {}") (message ec ∷ []))); co_return false)
        else (do (write_ec, written) ← async_write sock (take length buffer); co_return true)

  -- The `break`, or the rounds that follow.
  abbrev pub echo_again : AsioTask LoopEnd → Bool → AsioTask LoopEnd
  echo_again rest true = rest
  echo_again rest false = co_return broke

  unfoldable pub echo_loop : ℕ → ℕ → AsioTask LoopEnd
  echo_loop zero sock = co_return out_of_fuel
  echo_loop (suc fuel) sock = echo_round sock >>= echo_again (echo_loop fuel sock)

  -- What follows the loop.
  unfoldable pub hang_up : ℕ → LoopEnd → AsioTask LoopEnd
  hang_up sock out_of_fuel = co_return out_of_fuel
  hang_up sock broke = do
    shutdown_ec ← perform (shutdown sock)
    close_ec ← perform (close sock)
    co_return broke

  -- The session up to its loop: a wait of two seconds, whose outcome is only logged.
  unfoldable pub test_timeout : ℕ → AsioTask (Unit {0})
  test_timeout steady_timer = do
    perform (log (info (codes "start test timeout") []))
    perform (expires_after steady_timer 2)
    ec ← timeout steady_timer
    perform (log (info (codes "end test timeout: {}") (message ec ∷ [])))

  unfoldable pub session : ℕ → ℕ → ℕ → AsioTask LoopEnd
  unfolding echo_loop hang_up
  session fuel sock steady_timer = do
    test_timeout steady_timer
    end ← echo_loop fuel sock
    hang_up sock end

-- The acceptor, and the sockets by the rounds that open them.
pub record TcpServer : Type 0 where
  pub pool : IoContextPool
  pub executor_map : List (ℕ × Executor)

-- `m_executor_map.contains`, and `at`, which throws on a key that is not there.
abbrev pub find_executor : ℕ → List (ℕ × Executor) → Option Executor
find_executor context [] = none
find_executor context ((key, e) ∷ m) = if key == context then some e else find_executor context m

-- The two lines that give a context its executor; the order of an `unordered_map` does not matter.
unfoldable pub ensure_executor : ℕ → List (ℕ × Executor) → List (ℕ × Executor)
ensure_executor context m = elim (find_executor context m) [
  | some e ↦ m
  | none ↦ (context, record { io_context = context }) ∷ m
]

-- How `start` ends: an endless loop that is still going, an exception with its code, a context read
-- outside the pool, or `at` on a missing key.
pub data StartEnd : Type 0 where
  accepting no_context out_of_range : StartEnd
  system_error : ErrorCode → StartEnd

-- An operation that throws when it fails, before the rest.
abbrev pub or_throw : AsioTask StartEnd → ErrorCode → AsioTask StartEnd
or_throw rest ec = if failed ec then co_return (system_error ec) else rest

-- The acceptor is made ready; each of the four calls throws when it fails.
unfoldable pub open_and_listen : ℕ → ℕ → AsioTask StartEnd → AsioTask StartEnd
open_and_listen acceptor context rest =
    perform (open_acceptor acceptor context)
    >>= or_throw (
        perform (reuse_address acceptor true)
        >>= or_throw (
            perform (bind acceptor 8848)
            >>= or_throw (perform (listen acceptor) >>= or_throw rest)))

module _ (message : ErrorCode → Text) where
  -- The socket's session on the executor of its context.
  unfoldable pub schedule : ℕ → Option Executor → AsioTask (Option (Unit {0}))
  schedule socket none = co_return none
  schedule socket (some e) = do done ← add e socket; co_return (some done)

  -- One round of the accepting loop on a context, the socket of the round named `socket`; `none` is
  -- the exception of `at`.
  unfoldable pub accept_round : ℕ → ℕ → ℕ → List (ℕ × Executor) → AsioTask (Option (Unit {0}))
  unfolding schedule
  accept_round acceptor context socket executor_map = do
    perform (open_socket context socket)
    ec ← async_accept acceptor socket
    if failed ec
        then (do
          perform (log (error (codes "Accept failed, error: {}") (message ec ∷ [])))
          co_return (some tt))
        else schedule socket (find_executor context executor_map)

  -- The rest of the loop after a round.
  abbrev pub accept_again : AsioTask StartEnd → Option (Unit {0}) → AsioTask StartEnd
  accept_again rest none = co_return out_of_range
  accept_again rest (some done) = rest

  unfoldable pub accept_loop : ℕ → ℕ → ℕ → TcpServer → AsioTask StartEnd
  accept_loop zero acceptor socket server = co_return accepting
  accept_loop (suc fuel) acceptor socket server = elim (get_io_context server.pool) [
    | none ↦ co_return no_context
    | some (context, pool) ↦
        let executor_map = ensure_executor context.id server.executor_map in
        accept_round acceptor context.id socket executor_map
        >>= accept_again (
            accept_loop fuel acceptor (suc socket)
              (record { pool = pool; executor_map = executor_map }))
  ]

  -- `start`: the acceptor takes a context of its own first.
  unfoldable pub start : ℕ → ℕ → TcpServer → AsioTask StartEnd
  unfolding accept_loop open_and_listen
  start fuel acceptor server = elim (get_io_context server.pool) [
    | none ↦ co_return no_context
    | some (context, pool) ↦
        open_and_listen acceptor context.id
          (accept_loop fuel acceptor 0 (record server { pool = pool }))
  ]
