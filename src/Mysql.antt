-- ===== src/Mysql.antt =====
-- src/test_boost_mysql.cpp: awaiters over Boost.MySQL, and the coroutine of main.
-- Statements and result sets are named by numbers; a row is what it prints as.
use example.Base.{
  ℕ, Bool, true, false, Option, none, some, List, [], ◌∷◌, if◌then◌else◌, Text, codes,
}
pub mod Main
pub mod Plan
pub mod Explained
pub mod Reports
mod Tests
use example.Coro.{Task, co_return, suspended, ◌>>=◌, ◌>>◌, perform, Awaiter, co_await}
use example.Asio.{ErrorCode, success, failed, Line, info, error}

pub data Operation : Type 0 where
  resolve : Text → Text → Operation
  -- The endpoint is `*m_ep.begin()`; `none` is that of an empty result.
  connect : Option ℕ → Operation
  query : Text → Operation
  read_rows : ℕ → Operation
  prepare_statement : Text → Operation
  execute : ℕ → List Text → Operation
  close : Operation
  -- `result.complete()`
  complete : ℕ → Operation
  log : Line → Operation

pub record Resolved : Type 0 where
  pub ec : ErrorCode
  pub results : List ℕ

pub record Answered (A : Type 0) : Type 0 where
  pub ec : ErrorCode
  pub additional_info : Text
  pub value : A

abbrev pub Done : Operation → Type 0
Done (resolve host port) = Resolved
Done (connect endpoint) = ErrorCode
Done (query sql) = Answered ℕ
Done (read_rows resultset) = Answered (List Text)
Done (prepare_statement sql) = Answered ℕ
Done (execute stmt params) = Answered ℕ
Done close = Answered (Unit {0})
Done (complete resultset) = Bool
Done (log line) = Unit {0}

abbrev pub MysqlTask : Type 0 → Type 0
MysqlTask = Task Operation Done

abbrev pub begin : List ℕ → Option ℕ
begin [] = none
begin (e ∷ es) = some e

pub record ConnectState : Type 0 where
  pub ep : List ℕ
  pub ec : ErrorCode

unfoldable pub connect_awaiter : Awaiter Operation Done ConnectState ErrorCode
connect_awaiter = record {
  await_ready = λ s. false;
  operation = λ s. connect (begin s.ep);
  on_complete = λ s ec. record s { ec = ec };
  await_resume = λ s. s.ec;
}

unfoldable pub async_connect : List ℕ → MysqlTask ErrorCode
unfolding connect_awaiter
async_connect ep = co_await connect_awaiter (record { ep = ep; ec = success })

pub record ResolveState : Type 0 where
  pub host : Text
  pub port : Text
  pub ec : ErrorCode
  pub results_type : List ℕ

unfoldable pub resolve_awaiter : Awaiter Operation Done ResolveState (ErrorCode × List ℕ)
resolve_awaiter = record {
  await_ready = λ s. false;
  operation = λ s. resolve s.host s.port;
  on_complete = λ s d. record s { ec = d.ec; results_type = d.results };
  await_resume = λ s. (s.ec, s.results_type);
}

unfoldable pub async_resolve : Text → Text → MysqlTask (ErrorCode × List ℕ)
unfolding resolve_awaiter
async_resolve host port =
    co_await resolve_awaiter (record { host = host; port = port; ec = success; results_type = [] })

-- The fields that the other awaiters fill: the code, the error information (which the operation
-- writes in place) and the value. A default-constructed statement or result set is number 0.
pub record QueryState : Type 0 where
  pub sql : Text
  pub answer : Answered ℕ

abbrev pub nothing_yet : Answered ℕ
nothing_yet = record { ec = success; additional_info = []; value = 0 }

unfoldable pub query_awaiter : Awaiter Operation Done QueryState (Answered ℕ)
query_awaiter = record {
  await_ready = λ s. false;
  operation = λ s. query s.sql;
  on_complete = λ s d. record s { answer = d };
  await_resume = λ s. s.answer;
}

unfoldable pub async_query : Text → MysqlTask (Answered ℕ)
unfolding query_awaiter
async_query sql = co_await query_awaiter (record { sql = sql; answer = nothing_yet })

pub record ReadAllState : Type 0 where
  pub resultset : ℕ
  pub rows : Answered (List Text)

unfoldable pub read_all_awaiter : Awaiter Operation Done ReadAllState (Answered (List Text))
read_all_awaiter = record {
  await_ready = λ s. false;
  operation = λ s. read_rows s.resultset;
  on_complete = λ s d. record s { rows = d };
  await_resume = λ s. s.rows;
}

unfoldable pub read_all : ℕ → MysqlTask (Answered (List Text))
unfolding read_all_awaiter
read_all resultset = co_await read_all_awaiter (record {
  resultset = resultset;
  rows = record { ec = success; additional_info = []; value = [] };
})

unfoldable pub prepare_awaiter : Awaiter Operation Done QueryState (Answered ℕ)
prepare_awaiter = record {
  await_ready = λ s. false;
  operation = λ s. prepare_statement s.sql;
  on_complete = λ s d. record s { answer = d };
  await_resume = λ s. s.answer;
}

unfoldable pub async_prepare_statement : Text → MysqlTask (Answered ℕ)
unfolding prepare_awaiter
async_prepare_statement sql = co_await prepare_awaiter (record { sql = sql; answer = nothing_yet })

pub record ExecuteState : Type 0 where
  pub stmt : ℕ
  pub params : List Text
  pub answer : Answered ℕ

-- The error information stays in the awaiter: `await_resume` leaves it out.
unfoldable pub execute_awaiter : Awaiter Operation Done ExecuteState (ErrorCode × ℕ)
execute_awaiter = record {
  await_ready = λ s. false;
  operation = λ s. execute s.stmt s.params;
  on_complete = λ s d. record s { answer = d };
  await_resume = λ s. (s.answer.ec, s.answer.value);
}

unfoldable pub async_execute : ℕ → List Text → MysqlTask (ErrorCode × ℕ)
unfolding execute_awaiter
async_execute stmt params =
    co_await execute_awaiter (record { stmt = stmt; params = params; answer = nothing_yet })

unfoldable pub close_awaiter : Awaiter Operation Done (Answered (Unit {0})) (ErrorCode × Text)
close_awaiter = record {
  await_ready = λ s. false;
  operation = λ s. close;
  on_complete = λ s d. d;
  await_resume = λ s. (s.ec, s.additional_info);
}

unfoldable pub async_close : MysqlTask (ErrorCode × Text)
unfolding close_awaiter
async_close = co_await close_awaiter (record { ec = success; additional_info = []; value = tt })
