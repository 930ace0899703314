-- ===== src/Demos/Ending.antt =====
-- src/test.cpp: how main ends.
use example.Base.{
  ℕ, suc, ◌-◌, ◌≡◌, refl, Bool, true, false, Option, none, some, List, [], ◌∷◌, Text, codes,
  if◌then◌else◌, arith,
}
use example.Coro.{Runtime, Event, run, co_return, perform, ◌>>=◌}
use example.Drogon.{HttpClient, make_clients, get_http_client}
use example.Lambda.{DynamoDbClient, create_dynamo_db_client}
use example.Lambda.Main.{Ended, returned, threw}
use example.Lambda.Main
use example.Sql.Statements.{Database}
use example.Demos.{
  Effect, Operation, does, random_uuid, get_id, aws, async_redis, redis_get, send_request, Done,
  End, exited, terminated, folly_block, MainTask, all_of, attempt, catch_all, with_client,
  after_endpoint, aws_block, value_line, after_redis, redis_block, Sent, response, runtime_error,
  json_error, other_exception, lazy_task, request, drogon_block, main, after_aws, folly_block,
}

-- What a run has come to: the clients of the SDK that are alive, how often the SDK was shut down, and
-- whether the destructor of a client, the constructor of `AsyncRedis` or an exception of another type
-- from the request ended the program.
pub record Audit : Type 0 where
  pub clients : ℕ
  pub shutdowns : ℕ
  pub fatal : Bool

abbrev pub clean : Audit
clean = record { clients = 0; shutdowns = 0; fatal = false }

abbrev pub must_return : Ended → Audit → Audit
must_return returned a = a
must_return threw a = record a { fatal = true }

abbrev pub after_sent : Sent → Audit → Audit
after_sent other_exception a = record a { fatal = true }
after_sent sent a = a

abbrev pub after_aws_call : Main.Operation → Ended → Audit → Audit
after_aws_call (Main.new_client c) returned a = record a { clients = suc a.clients }
after_aws_call (Main.shutdown_api o) ended a = record a { shutdowns = suc a.shutdowns }
after_aws_call Main.delete_client ended a = must_return ended (record a { clients = a.clients - 1 })
after_aws_call op ended a = a

abbrev pub after_call : (op : Operation) → Done op → Audit → Audit
after_call (does e) d a = a
after_call random_uuid d a = a
after_call get_id d a = a
after_call (aws op) d a = after_aws_call op d a
after_call (async_redis host port) d a = must_return d a
after_call (redis_get key) d a = a
after_call (send_request c) d a = after_sent d a

abbrev pub audit : List (Event Operation Done) → Audit → Audit
audit [] a = a
audit ((op, d) ∷ es) a = audit es (after_call op d a)

abbrev pub Sound : Audit → End → Type 0
Sound a end = (a.clients ≡ 0) × (a.shutdowns ≡ 0) × (end ≡ (if a.fatal then terminated else exited))

first_client :
    (n : ℕ) (c : HttpClient) (cs : List HttpClient)
    → get_http_client (suc n) (c ∷ cs) 0 ≡ some (c, 1)
unfolding get_http_client
first_client n c cs = ground arith

module _ {S : Type 0} (runtime : Runtime Operation Done S) where
  unfoldable Holds : MainTask → Audit → Type 0
  Holds m a = (s : S) → let o = run runtime m s in Sound (audit o.events a) o.result

  performed_lem :
      (op : Operation) (k : Done op → MainTask) (a : Audit)
      → ((d : Done op) → Holds (k d) (after_call op d a))
      → Holds (perform op >>= k) a
  unfolding Holds
  performed_lem op k a h s = h _ _

  all_of_lem :
      (es : List Effect) (rest : MainTask) (a : Audit) → Holds rest a → Holds (all_of es rest) a
  unfolding all_of Holds
  all_of_lem [] rest a h s = h s
  all_of_lem (e ∷ es) rest a h s = all_of_lem es rest a h _

  after_aws_lem :
      (op : Main.Operation) (next thrown : MainTask) (a : Audit) (ended : Ended)
      → Holds next (after_call (aws op) returned a)
      → Holds thrown (after_call (aws op) threw a)
      → Holds (after_aws ended next thrown) (after_call (aws op) ended a)
  after_aws_lem op next thrown a returned good bad = good
  after_aws_lem op next thrown a threw good bad = bad

  attempt_lem :
      (op : Main.Operation) (next thrown : MainTask) (a : Audit)
      → Holds next (after_call (aws op) returned a)
      → Holds thrown (after_call (aws op) threw a)
      → Holds (attempt op next thrown) a
  unfolding attempt Holds
  attempt_lem op next thrown a good bad s = after_aws_lem op next thrown a _ good bad _

  caught_lem : (rest : MainTask) (a : Audit) → Holds rest a → Holds (catch_all rest) a
  caught_lem rest a h = all_of_lem _ rest a h

  terminated-Holds : Holds (co_return terminated) (record clean { fatal = true })
  unfolding Holds
  terminated-Holds s = (refl, refl, refl)

  with_client_lem :
      (rest : MainTask) → Holds rest clean → Holds (with_client rest) (record clean { clients = 1 })
  with_client_lem rest h =
      let one = record clean { clients = 1 } in
      attempt_lem Main.run_handler _ _ one
        (attempt_lem Main.delete_client _ _ one h terminated-Holds)
        (attempt_lem Main.delete_client _ _ one (caught_lem rest clean h) terminated-Holds)

  after_endpoint_lem :
      (made : Option DynamoDbClient) (client : DynamoDbClient) (rest : MainTask)
      → made ≡ some client
      → Holds rest clean
      → Holds (after_endpoint made rest) clean
  after_endpoint_lem none client rest e h = absurd (cc)
  after_endpoint_lem (some c) client rest e h =
      attempt_lem (Main.new_client c) _ _ clean (with_client_lem rest h) (caught_lem rest clean h)

  after_redis_lem :
      (ended : Ended) (rest : MainTask)
      → Holds rest clean
      → Holds (after_redis ended rest) (must_return ended clean)
  after_redis_lem returned rest h =
      performed_lem (redis_get _) _ clean (λ got. all_of_lem (value_line got) rest clean h)
  after_redis_lem threw rest h = terminated-Holds

  exited-Holds : Holds (co_return exited) clean
  unfolding Holds
  exited-Holds s = (refl, refl, refl)

  exits-Holds : Holds (all_of folly_block (co_return exited)) clean
  exits-Holds = all_of_lem folly_block _ clean exited-Holds

  lazy_task_lem :
      (sent : Sent)
      → Holds (lazy_task sent (all_of folly_block (co_return exited))) (after_sent sent clean)
  lazy_task_lem (response body) = all_of_lem _ _ clean exits-Holds
  lazy_task_lem (runtime_error what) = all_of_lem _ _ clean exits-Holds
  lazy_task_lem (json_error what) = all_of_lem _ _ clean exits-Holds
  lazy_task_lem other_exception = terminated-Holds

  request_lem :
      (c : HttpClient) (next : ℕ)
      → Holds (request (some (c, next)) (all_of folly_block (co_return exited))) clean
  request_lem c next = performed_lem (send_request c) _ clean lazy_task_lem

  drogon_block_lem :
      {R : Type 0} (get_next_loop : R → ℕ × R) (n : ℕ) (r : R)
      → Holds (drogon_block get_next_loop (suc n) r (all_of folly_block (co_return exited))) clean
  unfolding drogon_block make_clients
  drogon_block_lem get_next_loop n r =
      all_of_lem _ _ clean (rw (first_client n _ _) (request_lem _ 1))

  aws_block_lem :
      (hostname : Option Text) (client : DynamoDbClient) (rest : MainTask)
      → create_dynamo_db_client hostname (codes "us-east-1") (codes "local") (codes "local")
        ≡ some client
      → Holds rest clean
      → Holds (aws_block hostname rest) clean
  unfolding aws_block
  aws_block_lem hostname client rest made h =
      attempt_lem _ _ _ clean (after_endpoint_lem _ client rest made h) (caught_lem rest clean h)

  redis_block_lem : (rest : MainTask) → Holds rest clean → Holds (redis_block rest) clean
  unfolding redis_block
  redis_block_lem rest h =
      performed_lem (async_redis _ _) _ clean (λ ended. after_redis_lem ended rest h)

  main-Holds :
      {D R : Type 0} (db : Database D) (null_text decimal : Text) (hostname : Option Text)
      (get_next_loop : R → ℕ × R) (n : ℕ) (r : R) (client : DynamoDbClient)
      → create_dynamo_db_client hostname (codes "us-east-1") (codes "local") (codes "local")
        ≡ some client
      → Holds (main db null_text decimal hostname get_next_loop (suc n) r) clean
  unfolding main
  main-Holds db null_text decimal hostname get_next_loop n r client made =
      let rest = redis_block_lem _ (drogon_block_lem get_next_loop n r) in
      let inner =
        all_of_lem _ _ clean (performed_lem get_id _ clean (λ id. all_of_lem _ _ clean rest)) in
      all_of_lem _ _ clean (
        performed_lem random_uuid _ clean
          (λ uuid. all_of_lem _ _ clean (aws_block_lem hostname client _ made inner)))

  -- With at least one client of Drogon, and where `getEndpoint` stays within its buffer, and as long as the
  -- threads that it detaches do not end the program: whatever the database, the SDK, redis and the HTTP
  -- request come to, main returns 0, unless the destructor of the SDK's client, the constructor of
  -- `AsyncRedis`, or an exception from the request that is neither a `std::runtime_error` nor of the JSON
  -- library terminates the program. A client of the SDK that main makes it deletes, and it never shuts the
  -- SDK down.
  pub ended_by :
      {D R : Type 0} (db : Database D) (null_text decimal : Text) (hostname : Option Text)
      (get_next_loop : R → ℕ × R) (n : ℕ) (r : R) (client : DynamoDbClient) (s : S)
      → create_dynamo_db_client hostname (codes "us-east-1") (codes "local") (codes "local")
        ≡ some client
      → let o = run runtime (main db null_text decimal hostname get_next_loop (suc n) r) s in
        Sound (audit o.events clean) o.result
  unfolding Holds
  ended_by db null_text decimal hostname get_next_loop n r client s made =
      main-Holds db null_text decimal hostname get_next_loop n r client made s
