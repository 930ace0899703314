-- ===== src/TcpClient.antt =====
-- src/test_tcp_client.cpp: the client coroutine.
-- `message` is `error_code::message`, a library function.
pub mod Talk
pub mod Main
pub mod Ahead
pub mod Budget
pub mod Connection
pub mod Echoed
pub mod Succeeding
pub mod Affording
pub mod Finishing
pub mod Flowing
pub mod InOrder
pub mod Exits
mod Tests
use example.Base.{ℕ, zero, suc, Bool, true, false, List, [], ◌∷◌, ◌++◌, Text, codes}
use example.Base.Slices.{zeroed}
use example.Coro.{co_return, ◌>>=◌, ◌>>◌, perform}
use example.Asio.{
  ErrorCode, success, eof, other, failed, info, error, AsioTask, Connected, returned, thrown,
  async_connect, async_write, async_read_some, open_socket, shutdown, stop_context, log,
}

abbrev pub max_length : ℕ
max_length = 1024

abbrev pub rounds : ℕ
rounds = 100

-- `{"hello"}`: the bytes behind the text are zero.
abbrev pub write_buf : Text
write_buf = codes "hello" ++ zeroed 1019

-- How `start` ends: at its last line, by its early `co_return`, or by what `async_connect` throws.
pub data End : Type 0 where
  finished gave_up : End
  threw : ErrorCode → End

module _ (message : ErrorCode → Text) where
  -- The tests on the error of a read, before the rest of the loop.
  abbrev pub after_read : ErrorCode → AsioTask (Unit {0}) → AsioTask (Unit {0})
  after_read eof rest = perform (log (error (codes "server close") []))
  after_read (other n) rest = perform (log (error (codes "error: {}") (message (other n) ∷ [])))
  after_read success rest = rest

  -- The loop, with the number of rounds that are left. What `async_write` returns is dropped.
  unfoldable pub talk_loop : ℕ → ℕ → Text → AsioTask (Unit {0})
  talk_loop zero socket read_buf = co_return tt
  talk_loop (suc n) socket read_buf = do
    written ← async_write socket write_buf
    (read_error, reply_length, read_buf') ← async_read_some socket read_buf
    after_read read_error (talk_loop n socket read_buf')

  -- What follows the loop.
  abbrev pub wind_up : ℕ → ℕ → AsioTask End
  wind_up io_context socket = do
    perform (log (info (codes "Finished send and recieve") []))
    ignore_ec ← perform (shutdown socket)
    perform (stop_context io_context)
    co_return finished

  unfoldable pub talk : ℕ → ℕ → Text → Text → AsioTask End
  unfolding talk_loop
  talk io_context socket host port = do
    perform (log (info (codes "Connect to {}:{} successfully") (host ∷ port ∷ [])))
    talk_loop rounds socket (zeroed max_length)
    wind_up io_context socket

  abbrev pub give_up : ErrorCode → AsioTask End
  give_up ec = do
    perform (log (error (codes "Connect error: {}") (message ec ∷ [])))
    co_return gave_up

  abbrev pub after_connect : ℕ → ℕ → Text → Text → Connected → AsioTask End
  after_connect io_context socket host port (thrown ec) = co_return (threw ec)
  after_connect io_context socket host port (returned success) = talk io_context socket host port
  after_connect io_context socket host port (returned eof) = give_up eof
  after_connect io_context socket host port (returned (other n)) = give_up (other n)

  unfoldable pub start : ℕ → ℕ → Text → Text → AsioTask End
  unfolding talk
  start io_context socket host port = do
    perform (open_socket io_context socket)
    connected ← async_connect socket host port
    after_connect io_context socket host port connected
