-- ===== src/Asio.antt =====
-- include/asio_util.hpp: the awaiters over Boost.Asio, and the executor.
-- Sockets, acceptors, timers and contexts are named by numbers. The memory behind a buffer is passed
-- back with what an awaiter returns, since the caller owns it.
pub mod Awaiters
pub mod Scripted
use example.Base.{ℕ, Bool, true, false, List, [], ◌∷◌, Text, length, ◌++◌}
use example.Coro.{Task, co_return, ◌>>=◌, perform, Awaiter, co_await}

-- A `boost::system::error_code`; `eof` is `boost::asio::error::eof`.
pub data ErrorCode : Type 0 where
  success eof : ErrorCode
  other : ℕ → ErrorCode

-- `if (ec)`.
abbrev pub failed : ErrorCode → Bool
failed success = false
failed eof = true
failed (other n) = true

-- A log line of spdlog: its format and its arguments.
pub data Line : Type 0 where
  info error : Text → List Text → Line

pub data Operation : Type 0 where
  accept : ℕ → ℕ → Operation
  open_acceptor bind : ℕ → ℕ → Operation
  reuse_address : ℕ → Bool → Operation
  listen : ℕ → Operation
  open_socket : ℕ → ℕ → Operation
  read_some : ℕ → ℕ → Operation
  read : ℕ → ℕ → Operation
  read_until : ℕ → Text → Operation
  write : ℕ → Text → Operation
  resolve : Text → Text → Operation
  connect : ℕ → List ℕ → Operation
  wait : ℕ → Operation
  expires_after : ℕ → ℕ → Operation
  shutdown close : ℕ → Operation
  stop_context : ℕ → Operation
  post : ℕ → ℕ → Operation
  log : Line → Operation

-- What a read completes with: the code, the size, and the bytes written into the buffer.
pub record Received : Type 0 where
  pub ec : ErrorCode
  pub size : ℕ
  pub bytes : Text

pub record Written : Type 0 where
  pub ec : ErrorCode
  pub size : ℕ

-- `resolver::resolve` returns endpoints or throws.
pub data Resolved : Type 0 where
  endpoints : List ℕ → Resolved
  throws : ErrorCode → Resolved

abbrev pub Done : Operation → Type 0
Done (accept acceptor socket) = ErrorCode
Done (open_acceptor acceptor context) = ErrorCode
Done (reuse_address acceptor value) = ErrorCode
Done (bind acceptor port) = ErrorCode
Done (listen acceptor) = ErrorCode
Done (open_socket context socket) = Unit {0}
Done (read_some socket capacity) = Received
Done (read socket capacity) = Received
Done (read_until socket delim) = Received
Done (write socket bytes) = Written
Done (resolve host port) = Resolved
Done (connect socket eps) = ErrorCode
Done (wait timer) = ErrorCode
Done (expires_after timer seconds) = Unit {0}
Done (shutdown socket) = ErrorCode
Done (close socket) = ErrorCode
Done (stop_context context) = Unit {0}
Done (post context func) = Unit {0}
Done (log line) = Unit {0}

abbrev pub AsioTask : Type 0 → Type 0
AsioTask = Task Operation Done

-- Bytes written over the front of a buffer, never past its end.
abbrev pub overlay : Text → Text → Text
overlay [] bytes = []
overlay (x ∷ buffer) [] = x ∷ buffer
overlay (x ∷ buffer) (b ∷ bytes) = b ∷ overlay buffer bytes

-- `Executor::add`: the function runs on the executor's context.
pub record Executor : Type 0 where
  pub io_context : ℕ

unfoldable pub add : Executor → ℕ → AsioTask (Unit {0})
add e func = perform (post e.io_context func)

pub record AcceptorState : Type 0 where
  pub acceptor : ℕ
  pub socket : ℕ
  pub ec : ErrorCode

unfoldable pub acceptor_awaiter : Awaiter Operation Done AcceptorState ErrorCode
acceptor_awaiter = record {
  await_ready = λ s. false;
  operation = λ s. accept s.acceptor s.socket;
  on_complete = λ s ec. record s { ec = ec };
  await_resume = λ s. s.ec;
}

unfoldable pub async_accept : ℕ → ℕ → AsioTask ErrorCode
unfolding acceptor_awaiter
async_accept acceptor socket =
    co_await acceptor_awaiter (record { acceptor = acceptor; socket = socket; ec = success })

-- `ReadSomeAwaiter` and `ReadAwaiter`.
pub record ReadState : Type 0 where
  pub socket : ℕ
  pub buffer : Text
  pub ec : ErrorCode
  pub size : ℕ

abbrev pub receive : ReadState → Received → ReadState
receive s d = record s { ec = d.ec; size = d.size; buffer = overlay s.buffer d.bytes }

unfoldable pub read_some_awaiter : Awaiter Operation Done ReadState (ErrorCode × ℕ × Text)
read_some_awaiter = record {
  await_ready = λ s. false;
  operation = λ s. read_some s.socket (length s.buffer);
  on_complete = λ s d. receive s d;
  await_resume = λ s. (s.ec, s.size, s.buffer);
}

unfoldable pub async_read_some : ℕ → Text → AsioTask (ErrorCode × ℕ × Text)
unfolding read_some_awaiter
async_read_some socket buffer =
    co_await read_some_awaiter (record { socket = socket; buffer = buffer; ec = success; size = 0 })

unfoldable pub read_awaiter : Awaiter Operation Done ReadState (ErrorCode × ℕ × Text)
read_awaiter = record {
  await_ready = λ s. false;
  operation = λ s. read s.socket (length s.buffer);
  on_complete = λ s d. receive s d;
  await_resume = λ s. (s.ec, s.size, s.buffer);
}

unfoldable pub async_read : ℕ → Text → AsioTask (ErrorCode × ℕ × Text)
unfolding read_awaiter
async_read socket buffer =
    co_await read_awaiter (record { socket = socket; buffer = buffer; ec = success; size = 0 })

pub record ReadUntilState : Type 0 where
  pub socket : ℕ
  pub buffer : Text
  pub delim : Text
  pub ec : ErrorCode
  pub size : ℕ

-- A dynamic buffer grows: what arrives is put behind what it holds.
unfoldable pub read_until_awaiter : Awaiter Operation Done ReadUntilState (ErrorCode × ℕ × Text)
read_until_awaiter = record {
  await_ready = λ s. false;
  operation = λ s. read_until s.socket s.delim;
  on_complete = λ s d. record s { ec = d.ec; size = d.size; buffer = s.buffer ++ d.bytes };
  await_resume = λ s. (s.ec, s.size, s.buffer);
}

unfoldable pub async_read_until : ℕ → Text → Text → AsioTask (ErrorCode × ℕ × Text)
unfolding read_until_awaiter
async_read_until socket buffer delim =
    co_await read_until_awaiter
      (record { socket = socket; buffer = buffer; delim = delim; ec = success; size = 0 })

pub record WriteState : Type 0 where
  pub socket : ℕ
  pub buffer : Text
  pub ec : ErrorCode
  pub size : ℕ

unfoldable pub write_awaiter : Awaiter Operation Done WriteState (ErrorCode × ℕ)
write_awaiter = record {
  await_ready = λ s. false;
  operation = λ s. write s.socket s.buffer;
  on_complete = λ s d. record s { ec = d.ec; size = d.size };
  await_resume = λ s. (s.ec, s.size);
}

unfoldable pub async_write : ℕ → Text → AsioTask (ErrorCode × ℕ)
unfolding write_awaiter
async_write socket buffer =
    co_await write_awaiter (record { socket = socket; buffer = buffer; ec = success; size = 0 })

pub record ConnectState : Type 0 where
  pub socket : ℕ
  pub endpoints : List ℕ
  pub ec : ErrorCode

-- The second half of `ConnectAwaiter::await_suspend`, once the name is resolved.
unfoldable pub connect_awaiter : Awaiter Operation Done ConnectState ErrorCode
connect_awaiter = record {
  await_ready = λ s. false;
  operation = λ s. connect s.socket s.endpoints;
  on_complete = λ s ec. record s { ec = ec };
  await_resume = λ s. s.ec;
}

-- `async_connect`: the name is resolved in `await_suspend` itself, and what that throws is thrown by
-- `co_await`.
pub data Connected : Type 0 where
  returned : ErrorCode → Connected
  thrown : ErrorCode → Connected

unfoldable pub after_resolve : ℕ → Resolved → AsioTask Connected
unfolding connect_awaiter
after_resolve socket (throws ec) = co_return (thrown ec)
after_resolve socket (endpoints eps) = do
  ec ← co_await connect_awaiter (record { socket = socket; endpoints = eps; ec = success })
  co_return (returned ec)

unfoldable pub async_connect : ℕ → Text → Text → AsioTask Connected
unfolding after_resolve
async_connect socket host port = do r ← perform (resolve host port); after_resolve socket r

pub record TimerState : Type 0 where
  pub timer : ℕ
  pub ec : ErrorCode

unfoldable pub timer_awaiter : Awaiter Operation Done TimerState ErrorCode
timer_awaiter = record {
  await_ready = λ s. false;
  operation = λ s. wait s.timer;
  on_complete = λ s ec. record s { ec = ec };
  await_resume = λ s. s.ec;
}

unfoldable pub timeout : ℕ → AsioTask ErrorCode
unfolding timer_awaiter
timeout timer = co_await timer_awaiter (record { timer = timer; ec = success })
