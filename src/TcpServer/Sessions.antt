-- ===== src/TcpServer/Sessions.antt =====
-- src/test_tcp_server.cpp: the accepting loop and all of its sessions at once, each suspended at an
-- operation of its own. The runtime completes these operations in any order, on the pool's threads.
use example.Base.{ℕ, zero, suc, ◌≡◌, ◌≤◌, List, [], ◌∷◌, ◌++◌, Text, length}
use example.Coro.{co_return, suspended, Event}
use example.Asio.{Operation, Done, AsioTask, ErrorCode, read_some, post}
use example.TcpServer.{LoopEnd, StartEnd, TcpServer, session, start}

-- What the runtime completes an operation with, at one time.
abbrev pub Answer : Type 0
Answer = (op : Operation) → Done op

-- What Boost.Asio documents of `async_read_some`: it fills the buffer's front with the number of bytes
-- that it reports, which fits the buffer.
abbrev pub AnswerFits : Answer → Type 0
AnswerFits answer =
    (sock n : ℕ)
    → ((answer (read_some sock n)).size ≡ length (answer (read_some sock n)).bytes)
      × (length (answer (read_some sock n)).bytes ≤ n)

-- The operation that a task waits for completes, and the task goes on up to its next suspension.
abbrev pub resumed : {A : Type 0} → Answer → AsioTask A → AsioTask A
resumed answer (co_return a) = co_return a
resumed answer (suspended op k) = k (answer op)

abbrev pub completed : {A : Type 0} → Answer → AsioTask A → List (Event Operation Done)
completed answer (co_return a) = []
completed answer (suspended op k) = (op, answer op) ∷ []

-- A session that was posted to the executor of its context, and what is left of it.
pub record Session : Type 0 where
  pub context : ℕ
  pub socket : ℕ
  pub task : AsioTask LoopEnd

-- The coroutine of `start`, the sessions, the last one first, and the operations that have completed.
pub record Serving : Type 0 where
  pub listener : AsioTask StartEnd
  pub sessions : List Session
  pub history : List (Event Operation Done)

abbrev pub resume_at : Answer → ℕ → List Session → List Session
resume_at answer n [] = []
resume_at answer zero (x ∷ rest) = record x { task = resumed answer x.task } ∷ rest
resume_at answer (suc n) (x ∷ rest) = x ∷ resume_at answer n rest

abbrev pub completed_at : Answer → ℕ → List Session → List (Event Operation Done)
completed_at answer n [] = []
completed_at answer zero (x ∷ rest) = completed answer x.task
completed_at answer (suc n) (x ∷ rest) = completed_at answer n rest

module _ (message : ErrorCode → Text) (fuel : ℕ) where
  -- The sessions that a completed operation starts; the timer of a session bears its socket's number.
  abbrev pub spawned : List (Event Operation Done) → List Session
  spawned [] = []
  spawned ((post context socket, d) ∷ es) =
      record { context = context; socket = socket; task = session message fuel socket socket }
      ∷ spawned es
  spawned (e ∷ es) = spawned es

  unfoldable pub listen_on : Answer → Serving → Serving
  listen_on answer s = record {
    listener = resumed answer s.listener;
    sessions = spawned (completed answer s.listener) ++ s.sessions;
    history = s.history ++ completed answer s.listener;
  }

  unfoldable pub serve : Answer → ℕ → Serving → Serving
  serve answer n s = record s {
    sessions = resume_at answer n s.sessions;
    history = s.history ++ completed_at answer n s.sessions;
  }

  -- The operation of `start`, or of one of the sessions, completes.
  pub data ServingStep (s : Serving) : Serving → Type 0 where
    start_goes_on : (answer : Answer) → AnswerFits answer → ServingStep s (listen_on answer s)
    session_goes_on :
        (answer : Answer) (n : ℕ) → AnswerFits answer → ServingStep s (serve answer n s)

  abbrev pub served_by : ℕ → ℕ → TcpServer → Serving
  served_by rounds acceptor server = record {
    listener = start message rounds acceptor server;
    sessions = [];
    history = [];
  }

  pub data ServingReach (s₀ : Serving) : Serving → Type 0 where
    served : ServingReach s₀ s₀
    then_step : {s t : Serving} → ServingReach s₀ s → ServingStep s t → ServingReach s₀ t
