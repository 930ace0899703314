-- ===== src/Demos/Tests.antt =====
-- main run while no MySQL server is there and the handler of the Lambda runtime throws.
use example.Base.{ℕ, ◌≡◌, refl, none, some, codes, suc}
use example.Coro.{Runtime, run}
use example.Demos.{
  Operation, does, random_uuid, get_id, aws, async_redis, redis_get, send_request, Done, value,
  runtime_error, main,
}
use example.Demos.Ending.{audit, clean, Sound, ended_by}
use example.Lambda.{create_dynamo_db_client, http}
use example.Lambda.Main.{returned, threw}
use example.Lambda.Main
use example.Sql.Statements.{Database, raised}

abbrev no_server : Database Unit
no_server = record {
  connect = λ c. raised (codes "Could not connect to server") tt;
  execute = λ sql d. raised (codes "Could not connect to server") tt;
  perform = λ st d. raised (codes "Could not connect to server") tt;
}

abbrev answers : Runtime Operation Done ℕ
answers k (does e) = (tt, k)
answers k random_uuid = (codes "0c6f", suc k)
answers k get_id = (codes "140", k)
answers k (aws Main.run_handler) = (threw, k)
answers k (aws op) = (returned, k)
answers k (async_redis host port) = (returned, k)
answers k (redis_get key) = (value none, k)
answers k (send_request c) = (runtime_error (codes "BadServerAddress"), k)

local_endpoint :
    create_dynamo_db_client none (codes "us-east-1") (codes "local") (codes "local")
    ≡ some (record {
      region = codes "us-east-1";
      scheme = http;
      endpoint_override = codes "localhost:4566";
      access_key_id = codes "local";
      secret_key = codes "local";
    })
unfolding create_dynamo_db_client
local_endpoint = refl

-- Loops handed out in turn, by a counter.
abbrev next_loop : ℕ → ℕ × ℕ
next_loop i = (i, suc i)

ended_by_example :
    let o = run answers (main no_server (codes "NULL") (codes "0.45") none next_loop 4 0) 0 in
    Sound (audit o.events clean) o.result
ended_by_example =
    ended_by answers no_server (codes "NULL") (codes "0.45") none next_loop 3 0 _ 0 local_endpoint
