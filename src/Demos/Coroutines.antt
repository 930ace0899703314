-- ===== src/Demos/Coroutines.antt =====
-- src/test.cpp: the coroutines and functions that main hands to Folly, by what they do in order. Folly
-- runs them in its threads; those that are awaited together run in any interleaving.
use example.Base.{ℕ, Bool, true, false, List, [], ◌∷◌, Text, codes}
use example.Asio.{Line, info}

-- What a coroutine does between its start and its end. `log_id` logs with the text of the thread's id. The
-- locks are scoped: they are given back at the end.
pub data Step : Type 0 where
  log : Line → Step
  log_id : Text → Step
  sleep_milliseconds : ℕ → Step
  lock unlock lock_shared unlock_shared : Step
  reschedule : Step

-- `try_timeout` awaits a coroutine under a timeout of so many seconds, by `co_awaitTry`, and logs whether
-- the result has the exception `FutureTimeout`.
pub data Action : Type 0 where
  step : Step → Action
  try_timeout : List Step → ℕ → Text → Action

-- How a coroutine ends.
pub data Finish : Type 0 where
  void : Finish
  value : Text → Finish
  throws : Text → Finish

pub record Coroutine : Type 0 where
  pub body : List Action
  pub finish : Finish

-- `hasValue` and `hasException` of a `folly::Try`.
abbrev pub has_value : Finish → Bool
has_value void = true
has_value (value v) = true
has_value (throws what) = false

abbrev pub has_exception : Finish → Bool
has_exception (throws what) = true
has_exception finish = false

-- The function that `folly::via` runs.
abbrev pub via_task : Coroutine
via_task = record {
  body = step (log_id (codes "{}")) ∷ step (sleep_milliseconds 200) ∷ [];
  finish = void;
}

abbrev pub sleep_task : Coroutine
sleep_task = record {
  body =
      step (log (info (codes "start folly::coro::sleep") []))
      ∷ step (sleep_milliseconds 1000)
      ∷ step (log (info (codes "end folly::coro::sleep") []))
      ∷ [];
  finish = void;
}

abbrev pub writer_task : Coroutine
writer_task = record { body = step lock ∷ step unlock ∷ []; finish = void }

abbrev pub reader_task : Coroutine
reader_task = record { body = step lock_shared ∷ step unlock_shared ∷ []; finish = void }

abbrev pub throwing_task : Coroutine
throwing_task = record { body = []; finish = throws (codes "async exection") }

abbrev pub scope_task : Coroutine
scope_task = record { body = []; finish = void }

-- The three that `collectAllTry` awaits.
abbrev pub task1 : Coroutine
task1 = record {
  body = step (sleep_milliseconds 1000) ∷ step (log_id (codes "task1 thread id: {}")) ∷ [];
  finish = value (codes "42");
}

abbrev pub task2 : Coroutine
task2 = record {
  body = step (sleep_milliseconds 2000) ∷ step (log_id (codes "task2 thread id: {}")) ∷ [];
  finish = value (codes "3.14");
}

abbrev pub task3 : Coroutine
task3 = record {
  body =
      step (log_id (codes "task3 thread id: {}"))
      ∷ step reschedule
      ∷ step (log_id (codes "task3.1 thread id: {}"))
      ∷ [];
  finish = throws (codes "error");
}

abbrev pub test_timeout : Coroutine
test_timeout = record {
  body =
      step (log_id (codes "test_timeout thread id: {}"))
      ∷ step (log (info (codes "start timeout") []))
      ∷ try_timeout (sleep_milliseconds 0 ∷ log (info (codes "timeout return 42") []) ∷ []) 1
          (codes "has FutureTimeout Exception: {}")
      ∷ step (log_id (codes "timeout thread id: {}"))
      ∷ [];
  finish = void;
}
