-- ===== src/Lambda/Lifecycle.antt =====
-- src/test_aws_lambda.cpp: the client and the SDK over a run of main.
use example.Base.{
  ℕ, suc, ◌-◌, ◌≡◌, refl, Bool, true, false, Option, none, some, List, [], ◌∷◌, Text, codes,
  if◌then◌else◌,
}
use example.Coro.{Runtime, Event, run}
use example.Lambda.{DynamoDbClient, create_dynamo_db_client}
use example.Lambda.Main.{
  Operation, init_api, new_client, log_info, log_flush, run_handler, shutdown_api, delete_client,
  log_error, Ended, returned, threw, Done, MainTask, attempt, catch_all, leave_block, with_client,
  options, main, after_endpoint,
}

-- What a run has come to: the clients that are alive, those that were at each shutdown of the SDK,
-- and whether a call before the shutdown threw.
pub record Audit : Type 0 where
  pub clients : ℕ
  pub at_shutdown : List ℕ
  pub failed : Bool

abbrev pub clean : Audit
clean = record { clients = 0; at_shutdown = []; failed = false }

-- A call of the try block that returned, or threw.
abbrev pub blamed : Ended → Audit → Audit
blamed returned a = a
blamed threw a = record a { failed = true }

abbrev pub after_call : Operation → Ended → Audit → Audit
after_call (init_api o) ended a = blamed ended a
after_call (new_client c) returned a = record a { clients = suc a.clients }
after_call (new_client c) threw a = record a { failed = true }
after_call (log_info tag line) ended a = blamed ended a
after_call log_flush ended a = blamed ended a
after_call run_handler ended a = blamed ended a
after_call (shutdown_api o) ended a = record a { at_shutdown = a.clients ∷ a.at_shutdown }
after_call delete_client ended a = record a { clients = a.clients - 1 }
after_call (log_error tag line) ended a = a

abbrev pub audit : List (Event Operation Done) → Audit → Audit
audit [] a = a
audit ((op, ended) ∷ es) a = audit es (after_call op ended a)

module _ {S : Type 0} (runtime : Runtime Operation Done S) where
  -- What holds of a task after both ends of its first call holds of the task.
  attempt_lem :
      (P : Audit → Type 0) (op : Operation) (next thrown : MainTask) (a : Audit) (s : S)
      → ((t : S) → P (audit (run runtime next t).events (after_call op returned a)))
      → ((t : S) → P (audit (run runtime thrown t).events (after_call op threw a)))
      → P (audit (run runtime (attempt op next thrown) s).events a)
  attempt_lem P op next thrown a s good bad =
      let (ended, t) = runtime s op in
      elim ended
        as (λ d. P (
          audit (run runtime (elim d [ returned ↦ next | threw ↦ thrown ]) t).events
            (after_call op d a))) [ returned ↦ good t | threw ↦ bad t ]

  caught_lem : (a : Audit) (s : S) → audit (run runtime catch_all s).events a ≡ a
  caught_lem a s =
      attempt_lem (λ b. b ≡ a) (log_error (codes "nqf") (codes "error")) _ _ a s (λ t. refl)
        (λ t. refl)

  -- Unwinding deletes the client.
  unwind_lem :
      (shut : List ℕ) (failed : Bool) (s : S)
      → audit
          (run runtime (leave_block catch_all) s).events
          (record { clients = 1; at_shutdown = shut; failed = failed })
        ≡ record { clients = 0; at_shutdown = shut; failed = failed }
  unwind_lem shut failed s =
      attempt_lem (λ b. b ≡ record { clients = 0; at_shutdown = shut; failed = failed })
        delete_client _ _ (record { clients = 1; at_shutdown = shut; failed = failed }) s
        (λ t. caught_lem (record { clients = 0; at_shutdown = shut; failed = failed }) t)
        (λ t. refl)

  abbrev pub Sound : Audit → Type 0
  Sound a = (a.clients ≡ 0) × (a.at_shutdown ≡ (if a.failed then [] else 1 ∷ []))

  unwound-Sound :
      (s : S)
      → Sound (
          audit
            (run runtime (leave_block catch_all) s).events
            (record { clients = 1; at_shutdown = []; failed = true }))
  unwound-Sound s = rw (unwind_lem [] true s) (refl, refl)

  with_client-Sound :
      (s : S)
      → Sound (
          audit
            (run runtime with_client s).events
            (record { clients = 1; at_shutdown = []; failed = false }))
  with_client-Sound s =
      attempt_lem Sound (log_info _ _) _ _ _ s
        (λ s.
          attempt_lem Sound log_flush _ _ _ s
            (λ s.
              attempt_lem Sound run_handler _ _ _ s
                (λ s.
                  attempt_lem Sound (shutdown_api options) _ _ _ s
                    (λ s.
                      attempt_lem Sound delete_client _ _
                        (record { clients = 1; at_shutdown = 1 ∷ []; failed = false }) s
                        (λ t. (refl, refl)) (λ t. (refl, refl)))
                    (λ s. rw (unwind_lem (1 ∷ []) false s) (refl, refl)))
                unwound-Sound)
            unwound-Sound)
        unwound-Sound

  after_endpoint-Sound :
      (made : Option DynamoDbClient) (client : DynamoDbClient) (s : S)
      → made ≡ some client
      → Sound (audit (run runtime (after_endpoint made) s).events clean)
  after_endpoint-Sound none client s e = absurd (cc)
  after_endpoint-Sound (some c) client s e =
      attempt_lem Sound (new_client c) _ _ clean s with_client-Sound
        (λ s. rw (caught_lem (record clean { failed = true }) s) (refl, refl))

  -- Where `getEndpoint` stays within its buffer, whatever the calls of main come to: a client that it
  -- makes is deleted. The SDK is shut down if and
  -- only if no call before threw, and then while the client is still alive.
  pub main_lifecycle :
      (hostname : Option Text) (client : DynamoDbClient) (s : S)
      → create_dynamo_db_client hostname (codes "us-east-1") (codes "local") (codes "local")
        ≡ some client
      → let a = audit (run runtime (main hostname) s).events clean in
        (a.clients ≡ 0) × (a.at_shutdown ≡ (if a.failed then [] else 1 ∷ []))
  unfolding main
  main_lifecycle hostname client s made =
      attempt_lem Sound (init_api options) _ _ clean s (λ s. after_endpoint-Sound _ client s made)
        (λ s. rw (caught_lem (record clean { failed = true }) s) (refl, refl))
