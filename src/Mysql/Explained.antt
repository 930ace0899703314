-- ===== src/Mysql/Explained.antt =====
-- src/test_boost_mysql.cpp: how the coroutine of main ends, on every path.
use example.Base.{
  codes, ℕ, ◌≡◌, refl, inl, inr, Bool, true, false, List, [], ◌∷◌, ◌++◌, append-nil, none,
  Bool-cases, Text,
}
use example.Coro.{suspended, Runtime, run, co_await}
use example.Asio.{ErrorCode, failed, Line}
use example.Mysql.{
  Answered, begin, Operation, Done, MysqlTask, resolve, connect, query, read_rows,
  prepare_statement, execute, complete, log, async_resolve, async_connect, async_query,
  async_prepare_statement, async_execute, read_all,
}
use example.Mysql.Main.{
  params, insert_sql, select_sql, after_create, check, drop_table_sql, create_table_sql, End,
  main_task, connect_block, create_block, insert_block, select_block, show_rows, after_complete,
}
use example.Mysql.Plan.{code, Fine, bare, Explained, Explained-cons, plan}

module _ (message : ErrorCode → Text) {S : Type 0} (runtime : Runtime Operation Done S) where
  -- A task whose end is explained whatever the runtime answers.
  pub record Explains (plan : List Operation) (m : MysqlTask End) : Type 0 where
    pub explain : (s : S) → Explained plan (run runtime m s).result (run runtime m s).events

  suspended-Explains :
      (plan : List Operation) (op : Operation) {f : Done op → MysqlTask End}
      → ((d : Done op) → Fine (op, d))
      → ((d : Done op) → Explains plan (f d))
      → Explains (bare op ++ plan) (suspended op f)
  suspended-Explains plan op {f} fine h = record {
    explain = λ s.
        let (d, t) = runtime s op in
        Explained-cons plan (run runtime (f d) t).result op d (run runtime (f d) t).events (fine d)
          ((h d).explain t);
  }

  -- An operation whose code is checked.
  checked-Explains :
      (plan : List Operation) (op : Operation) (line : Done op → Line)
      (rest : Done op → MysqlTask End)
      → ((d : Done op) → failed (code op d) ≡ false → Fine (op, d))
      → ((d : Done op) → Explains plan (rest d))
      → Explains (bare op ++ plan) (suspended op (λ d. check (code op d) (line d) (rest d)))
  checked-Explains plan op line rest fine h = record {
    explain = λ s.
        let (d, t) = runtime s op in
        elim (Bool-cases (failed (code op d))) [
          | inl bad ↦
              rw bad ([], op, d, line d, refl, tt, bad, plan, rw (append-nil (bare op)) refl)
          | inr good ↦ rw good (
              Explained-cons plan (run runtime (rest d) t).result op d
                (run runtime (rest d) t).events (fine d good) ((h d).explain t))
        ];
  }

  connect_block-Explains :
      (plan : List Operation) (rest : MysqlTask End)
      → Explains plan rest
      → Explains
          (resolve (codes "127.0.0.1") (codes "3309") ∷ connect none ∷ plan)
          (connect_block message rest)
  unfolding connect_block async_resolve async_connect co_await
  connect_block-Explains plan rest h =
      checked-Explains _ (resolve (codes "127.0.0.1") (codes "3309")) _ _ (λ d good. good)
        (λ d. checked-Explains plan (connect (begin d.results)) _ _ (λ ec good. good) (λ ec. h))

  after_create-Explains :
      (plan : List Operation) (created : Answered ℕ) (rest : MysqlTask End)
      → Explains plan rest
      → Explains plan (after_create message created rest)
  after_create-Explains plan created rest h = elim (Bool-cases (failed created.ec)) [
    | inl bad ↦ rw bad (suspended-Explains plan (log _) (λ d. refl) (λ d. h))
    | inr good ↦ rw good h
  ]

  create_block-Explains :
      (plan : List Operation) (rest : MysqlTask End)
      → Explains plan rest
      → Explains (query drop_table_sql ∷ query create_table_sql ∷ plan) (create_block message rest)
  unfolding create_block async_query co_await
  create_block-Explains plan rest h =
      suspended-Explains _ (query drop_table_sql) (λ d. tt)
        (λ d.
          suspended-Explains plan (query create_table_sql) (λ c. tt)
            (λ c. after_create-Explains plan c rest h))

  insert_block-Explains :
      (plan : List Operation) (rest : MysqlTask End)
      → Explains plan rest
      → Explains
          (prepare_statement insert_sql ∷ execute 0 params ∷ plan)
          (insert_block message rest)
  unfolding insert_block async_prepare_statement async_execute co_await
  insert_block-Explains plan rest h =
      checked-Explains _ (prepare_statement insert_sql) _ _ (λ d good. good)
        (λ d. checked-Explains plan (execute d.value params) _ _ (λ e good. good) (λ e. h))

  show_rows-Explains : (rows : List Text) → Explains [] (show_rows message rows)
  show_rows-Explains [] = record { explain = λ s. (tt, refl) }
  show_rows-Explains (row ∷ rows) = record { explain = λ s. ((refl, tt), refl) }

  -- `complete`, with the early `exit`.
  complete-Explains :
      (resultset : ℕ) (rows : List Text)
      → Explains (complete 0 ∷ []) (suspended (complete resultset) (after_complete message rows))
  complete-Explains resultset rows = record {
    explain = λ s. go s (runtime s (complete resultset)).0 refl;
  }
    where
      go :
          (s : S) (whole : Bool)
          → (runtime s (complete resultset)).0 ≡ whole
          → Explained
              (complete 0 ∷ [])
              (run runtime (suspended (complete resultset) (after_complete message rows)) s).result
              (run runtime (suspended (complete resultset) (after_complete message rows)) s).events
      go s true e = rw e (
          Explained-cons [] _ (complete resultset) true _ refl
            ((show_rows-Explains rows).explain _))
      go s false e = rw e ([], resultset, _, refl, tt, refl)

  select_block-Explains :
      Explains
        (prepare_statement select_sql ∷ execute 0 params ∷ read_rows 0 ∷ complete 0 ∷ [])
        (select_block message)
  unfolding select_block async_prepare_statement async_execute read_all co_await
  select_block-Explains =
      checked-Explains _ (prepare_statement select_sql) _ _ (λ d good. good)
        (λ d.
          checked-Explains _ (execute d.value params) _ _ (λ e good. good)
            (λ e.
              checked-Explains _ (read_rows e.value) _ _ (λ r good. good)
                (λ r. complete-Explains e.value r.value)))

  -- Whatever the database answers, the coroutine ends in one of three ways: it runs to its last line,
  -- and then it has made all ten operations of its plan in order, each but the two queries succeeded and
  -- the result set was complete; or it returns early, and then it has made the first operations of the
  -- plan, of which the last failed, and exactly one line was logged after that; or it exits, after all
  -- operations of the plan, directly after finding the result set incomplete and logging one line. In
  -- the last two cases, too, each earlier operation but the queries succeeded.
  pub main_task-Explained :
      (s : S) → let o = run runtime (main_task message) s in Explained plan o.result o.events
  unfolding main_task
  main_task-Explained s =
      (connect_block-Explains _ (create_block message (insert_block message (select_block message)))
          (create_block-Explains _ (insert_block message (select_block message))
            (insert_block-Explains _ (select_block message) select_block-Explains))).explain
        s
