-- ===== src/Lambda/Main.antt =====
-- src/test_aws_lambda.cpp: main, and the calls that it makes of the SDK and of the runtime library.
use example.Base.{Option, none, some, Text, codes}
use example.Coro.{Task, co_return, ◌>>=◌, perform}
use example.Lambda.{DynamoDbClient, create_dynamo_db_client}

pub data LogLevel : Type 0 where
  info_level trace_level : LogLevel

-- `Aws::SDKOptions`, as far as main sets it: the level, and the console logger with its own.
pub record SdkOptions : Type 0 where
  pub log_level : LogLevel
  pub logger_tag : Text
  pub logger_level : LogLevel

abbrev pub options : SdkOptions
options = record {
  log_level = info_level;
  logger_tag = codes "console_logger";
  logger_level = info_level;
}

-- The calls of main. `delete_client` is the destructor of `dynamo_client_ptr`.
pub data Operation : Type 0 where
  init_api : SdkOptions → Operation
  new_client : DynamoDbClient → Operation
  log_info : Text → Text → Operation
  log_flush : Operation
  run_handler : Operation
  shutdown_api : SdkOptions → Operation
  delete_client : Operation
  log_error : Text → Text → Operation

-- How a call ends.
pub data Ended : Type 0 where
  returned threw : Ended

abbrev pub Done : Operation → Type 0
Done op = Ended

-- How main ends: with 0, by an exception that leaves the catch clause, or not as the language defines,
-- where `getEndpoint` writes past its buffer.
pub data End : Type 0 where
  exited escaped undefined : End

abbrev pub MainTask : Type 0
MainTask = Task Operation Done End

-- A call, and what follows it if it returns or throws.
abbrev pub attempt : Operation → MainTask → MainTask → MainTask
attempt op next thrown = perform op >>= λ ended. elim ended [ returned ↦ next | threw ↦ thrown ]

-- `catch (...)`.
abbrev pub catch_all : MainTask
catch_all = attempt (log_error (codes "nqf") (codes "error")) (co_return exited) (co_return escaped)

-- The end of the try block, and an exception within it, once the client exists: its destructor runs
-- first. A destructor that throws terminates the program.
abbrev pub leave_block : MainTask → MainTask
leave_block rest = attempt delete_client rest (co_return escaped)

abbrev pub with_client : MainTask
with_client =
    let unwind = leave_block catch_all in
    attempt (log_info (codes "EXAMPLE") (codes "start aws::lambda_runtime::run_handler"))
      (attempt log_flush
        (attempt run_handler
          (attempt (shutdown_api options) (leave_block (co_return exited)) unwind) unwind)
        unwind)
      unwind

-- `createDynamoDBClient` and the rest of the block; `none` is a write past the buffer of `getEndpoint`.
abbrev pub after_endpoint : Option DynamoDbClient → MainTask
after_endpoint none = co_return undefined
after_endpoint (some client) = attempt (new_client client) with_client catch_all

-- main, for the value of LOCALSTACK_HOSTNAME.
unfoldable pub main : Option Text → MainTask
main hostname =
    attempt (init_api options)
      (after_endpoint
        (create_dynamo_db_client hostname (codes "us-east-1") (codes "local") (codes "local")))
      catch_all
