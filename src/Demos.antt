-- ===== src/Demos.antt =====
-- src/test.cpp: main, over the models of the block on the table, of the Lambda handler's program and of the
-- Drogon clients.
pub mod Coroutines
pub mod Ending
mod Tests
use example.Base.{ℕ, Bool, true, false, Option, none, some, List, [], ◌∷◌, ◌++◌, map, Text, codes}
use example.Asio.{Line, info, error}
use example.Coro.{Task, co_return, ◌>>=◌, perform}
use example.Drogon.{HttpClient, make_clients, get_http_client}
use example.Demos.Coroutines.{
  Coroutine, Finish, throws, has_value, has_exception, via_task, sleep_task, writer_task,
  reader_task, throwing_task, scope_task, task1, task2, task3, test_timeout,
}
use example.Lambda.{DynamoDbClient, create_dynamo_db_client}
use example.Lambda.Main.{SdkOptions, trace_level, Ended, returned, threw}
use example.Lambda.Main
use example.Sql.Main.{sql_block}
use example.Sql.Statements.{Database}

-- The threads that main detaches.
pub data Thread : Type 0 where
  server_thread client_thread : Thread

-- The calls that go on to the next line, whatever they do. `await_all` starts coroutines and waits until
-- all of them have ended.
pub data Effect : Type 0 where
  print : Text → Effect
  log : Line → Effect
  detach : Thread → Effect
  folly_init : Effect
  start_pool : ℕ → Effect
  new_http_client : Text → HttpClient → Effect
  start_threads : ℕ → Text → Effect
  await_all : List Coroutine → Effect

-- What the continuation of `redis.get` finds in its future.
pub data Got : Type 0 where
  value : Option Text → Got
  failed : Text → Got

-- What `sendRequestCoro` ends with.
pub data Sent : Type 0 where
  response : Text → Sent
  runtime_error json_error : Text → Sent
  other_exception : Sent

pub data Operation : Type 0 where
  does : Effect → Operation
  random_uuid get_id : Operation
  aws : Main.Operation → Operation
  async_redis : Text → ℕ → Operation
  redis_get : Text → Operation
  send_request : HttpClient → Operation

abbrev pub Done : Operation → Type 0
Done (does e) = Unit {0}
Done random_uuid = Text
Done get_id = Text
Done (aws op) = Ended
Done (async_redis host port) = Ended
Done (redis_get key) = Got
Done (send_request c) = Sent

-- How main ends: with 0, by an exception that nothing catches, or not as the language defines.
pub data End : Type 0 where
  exited terminated undefined : End

abbrev pub MainTask : Type 0
MainTask = Task Operation Done End

unfoldable pub all_of : List Effect → MainTask → MainTask
all_of [] rest = rest
all_of (e ∷ es) rest = perform (does e) >>= λ u. all_of es rest

abbrev pub after_aws : Ended → MainTask → MainTask → MainTask
after_aws returned next thrown = next
after_aws threw next thrown = thrown

-- A call of the SDK, and what follows it if it returns or throws.
unfoldable pub attempt : Main.Operation → MainTask → MainTask → MainTask
attempt op next thrown = perform (aws op) >>= λ ended. after_aws ended next thrown

-- The block on the table; the text of an exception is logged.
abbrev pub table_block : {D : Type 0} → Database D → Text → List Effect
table_block db null_text =
    let o = sql_block db null_text in
    map print o.printed ++ map (λ what. log (error (codes "{}") (what ∷ []))) o.logged

-- With the logger of `GetConsoleLoggerFactory`.
abbrev pub options : SdkOptions
options = record {
  log_level = trace_level;
  logger_tag = codes "console_logger";
  logger_level = trace_level;
}

-- `catch (...)`.
abbrev pub catch_all : MainTask → MainTask
catch_all rest = all_of (log (error (codes "aws error") []) ∷ []) rest

-- The block in which the client exists. Its destructor runs when the block is left, and terminates the
-- program if it throws.
abbrev pub with_client : MainTask → MainTask
with_client rest =
    attempt Main.run_handler (attempt Main.delete_client rest (co_return terminated))
      (attempt Main.delete_client (catch_all rest) (co_return terminated))

abbrev pub after_endpoint : Option DynamoDbClient → MainTask → MainTask
after_endpoint none rest = co_return undefined
after_endpoint (some client) rest =
    attempt (Main.new_client client) (with_client rest) (catch_all rest)

-- The block on the SDK, for the value of LOCALSTACK_HOSTNAME, and what follows it.
unfoldable pub aws_block : Option Text → MainTask → MainTask
aws_block hostname rest =
    attempt (Main.init_api options)
      (after_endpoint
        (create_dynamo_db_client hostname (codes "us-east-1") (codes "local") (codes "local")) rest)
      (catch_all rest)

-- The continuation of `redis.get`. An exception that leaves it stays in the future of which main only
-- waits for the end.
abbrev pub value_line : Got → List Effect
value_line (value none) = []
value_line (value (some val)) = print val ∷ []
value_line (failed what) = []

abbrev pub after_redis : Ended → MainTask → MainTask
after_redis threw rest = co_return terminated
after_redis returned rest =
    perform (redis_get (codes "key")) >>= λ got. all_of (value_line got) rest

unfoldable pub redis_block : MainTask → MainTask
redis_block rest =
    perform (async_redis (codes "127.0.0.1") 6380) >>= λ ended. after_redis ended rest

-- `task` within `create_lazy_task`, and what follows it.
abbrev pub lazy_task : Sent → MainTask → MainTask
lazy_task (response body) rest = all_of (log (info (codes "end query!!!") []) ∷ []) rest
lazy_task (runtime_error what) rest = all_of (print what ∷ []) rest
lazy_task (json_error what) rest = all_of (print what ∷ []) rest
lazy_task other_exception rest = co_return terminated

abbrev pub request : Option (HttpClient × ℕ) → MainTask → MainTask
request none rest = co_return undefined
request (some (c, next)) rest = perform (send_request c) >>= λ sent. lazy_task sent rest

unfoldable pub drogon_block : {S : Type 0} → (S → ℕ × S) → ℕ → S → MainTask → MainTask
drogon_block get_next_loop hardware_concurrency s rest =
    let http_clients = (make_clients get_next_loop hardware_concurrency s).0 in
    all_of
      (log (info (codes "------------------start test drogon---------------------------") [])
        ∷ start_pool hardware_concurrency
        ∷ map (new_http_client (codes "http://127.0.0.1:9200")) http_clients)
      (request (get_http_client hardware_concurrency http_clients 0) rest)

abbrev pub redis_banner : Line
redis_banner =
    info (codes "------------------start test redis-plus-plus---------------------------") []

abbrev pub bool_text : Bool → Text
bool_text true = codes "true"
bool_text false = codes "false"

-- `catch (const std::runtime_error&)` around `co_await` of a future.
abbrev pub caught_line : Finish → List Effect
caught_line (throws what) = log (error (codes "{}") (what ∷ [])) ∷ []
caught_line finish = []

-- The line after `collectAllTry`.
abbrev pub tries_line : Finish → Finish → Finish → Effect
tries_line a b c = log (
    info (codes "a: {}, b: {}, c: {}")
      (bool_text (has_value a) ∷ bool_text (has_value b) ∷ bool_text (has_exception c) ∷ []))

-- The calls of Folly.
abbrev pub folly_block : List Effect
folly_block =
    (log (info (codes "------------------start test folly---------------------------") [])
      ∷ start_threads 4 (codes "TestThreadPool")
      ∷ await_all (via_task ∷ via_task ∷ via_task ∷ via_task ∷ [])
      ∷ await_all (sleep_task ∷ [])
      ∷ log (info (codes "start test SharedMutex") [])
      ∷ await_all (writer_task ∷ reader_task ∷ [])
      ∷ await_all (throwing_task ∷ [])
      ∷ caught_line throwing_task.finish)
    ++ (log (info (codes "start test AsyncScope") [])
        ∷ await_all (scope_task ∷ scope_task ∷ [])
        ∷ await_all (task1 ∷ task2 ∷ task3 ∷ [])
        ∷ tries_line task1.finish task2.finish task3.finish
        ∷ await_all (test_timeout ∷ [])
        ∷ log (info (codes "hasException: {}") (bool_text (has_exception (throws [])) ∷ []))
        ∷ [])

-- main; `decimal` is the text of its decimal number.
unfoldable pub main :
    {D S : Type 0} → Database D → Text → Text → Option Text → (S → ℕ × S) → ℕ → S → MainTask
main db null_text decimal hostname get_next_loop hardware_concurrency s =
    all_of (table_block db null_text ++ (detach server_thread ∷ detach client_thread ∷ [])) (
      perform random_uuid >>= λ uuid. all_of (print uuid ∷ print decimal ∷ []) (
        aws_block hostname (
          all_of (folly_init ∷ []) (
            perform get_id >>= λ id.
            all_of (log (info (codes "main thread id: {}") (id ∷ [])) ∷ log redis_banner ∷ []) (
              redis_block (
                drogon_block get_next_loop hardware_concurrency s
                  (all_of folly_block (co_return exited))))))))
