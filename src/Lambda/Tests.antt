-- ===== src/Lambda/Tests.antt =====
-- The theorems of this folder, applied.
use example.Base.{ℕ, none, refl, if◌then◌else◌, [], ◌∷◌, ◌≡◌, some, Text, codes, arith, ◌++◌}
use example.Lambda.{
  Json, Fields, null, number, string, array, object, end, field, failed, failure, index,
  get_endpoint, handler, tables, DynamoDbClient, http, create_dynamo_db_client, succeeded,
}
use example.Lambda.Handler.{status_code, body_field, handler_cases}
use example.Lambda.Endpoint.{get_endpoint_cases}
use example.Coro.{Runtime, run}
use example.Lambda.Main.{Operation, run_handler, returned, threw, Done, main}
use example.Lambda.Lifecycle.{audit, clean, main_lifecycle}

get_endpoint_cases_example :
    get_endpoint (some (codes "localstack")) ≡ some (codes "localstack:4566")
get_endpoint_cases_example = get_endpoint_cases (codes "localstack") (omega arith)

-- A text that tells the values of the handler apart.
abbrev mutual
  dump : Json → Text
  dump null = codes "null"
  dump (number n) = n ∷ []
  dump (string t) = t
  dump (array []) = codes "[]"
  dump (array (t ∷ ts)) = codes "[" ++ t
  dump (object fs) = codes "{" ++ dump_fields fs

  dump_fields : Fields → Text
  dump_fields end = codes "}"
  dump_fields (field key j fs) = key ++ (dump j ++ dump_fields fs)

handler_cases_example :
    ((j : Json) × (handler dump (tables (codes "users" ∷ []))
        ≡ succeeded (dump j) (codes "application/json"))
      × (status_code j ≡ number 200)
      × (body_field (codes "list_tables") j ≡ array (codes "users" ∷ []))
      × (body_field (codes "text") j ≡ string (codes "cpp's list api")))
    × ((j : Json) × (handler dump (failed (codes "timeout")) ≡ failure (dump j) (codes "timeout"))
        × (status_code j ≡ number 500)
        × (index j (codes "body") ≡ null))
handler_cases_example = handler_cases dump (codes "users" ∷ []) (codes "timeout")

-- The handler loop is ended by an exception.
abbrev interrupted : Runtime Operation Done ℕ
interrupted k run_handler = (threw, k)
interrupted k op = (returned, k)

abbrev local_client : DynamoDbClient
local_client = record {
  region = codes "us-east-1";
  scheme = http;
  endpoint_override = codes "localhost:4566";
  access_key_id = codes "local";
  secret_key = codes "local";
}

local_client_lem :
    create_dynamo_db_client none (codes "us-east-1") (codes "local") (codes "local")
    ≡ some local_client
unfolding create_dynamo_db_client
local_client_lem = refl

main_lifecycle_example :
    let a = audit (run interrupted (main none) 0).events clean in
    (a.clients ≡ 0) × (a.at_shutdown ≡ (if a.failed then [] else 1 ∷ []))
main_lifecycle_example = main_lifecycle interrupted none local_client 0 local_client_lem
