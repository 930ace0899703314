-- ===== src/Mysql/Main.antt =====
-- src/test_boost_mysql.cpp: the coroutine that main runs.
use example.Base.{Bool, true, false, List, [], ◌∷◌, if◌then◌else◌, Text, codes, ℕ}
use example.Coro.{co_return, ◌>>=◌, perform}
use example.Asio.{ErrorCode, failed, Line, info, error}
use example.Mysql.{
  Answered, MysqlTask, complete, log, async_resolve, async_connect, async_query,
  async_prepare_statement, async_execute, read_all,
}

abbrev pub drop_table_sql : Text
drop_table_sql = codes "DROP TABLE IF EXISTS mysql_db_test"

abbrev pub create_table_sql : Text
create_table_sql =
    codes
      "create table mysql_db_test(pk1 varchar(36) NOT NULL PRIMARY KEY, pk2 varchar(36), column1 varchar(32), column2 varchar(32), column3 varchar(32), column4 varchar(32))"

abbrev pub insert_sql : Text
insert_sql =
    codes
      "insert into mysql_db_test VALUES (?, 'pk2', 'test-column1', 'test-column2', 'test-column3', 'test-column4');"

abbrev pub select_sql : Text
select_sql = codes "select * from mysql_db_test where pk1 = ?;"

abbrev pub params : List Text
params = codes "10086" ∷ []

-- How the coroutine ends: at its last line, by an early `co_return`, or by `exit(1)`.
pub data End : Type 0 where
  finished returned exited : End

-- Report and return early.
abbrev pub give_up : Line → MysqlTask End
give_up line = perform (log line) >>= λ _. co_return returned

-- `if (ec) { log; co_return; }` before the rest.
abbrev pub check : ErrorCode → Line → MysqlTask End → MysqlTask End
check ec line rest = if failed ec then give_up line else rest

module _ (message : ErrorCode → Text) where
  abbrev pub show_rows : List Text → MysqlTask End
  show_rows [] = co_return finished
  show_rows (row ∷ rows) = perform (log (info (codes "{}") (row ∷ []))) >>= λ _. co_return finished

  abbrev pub after_complete : List Text → Bool → MysqlTask End
  after_complete rows false =
      perform (log (error (codes "read result incomplete") [])) >>= λ _. co_return exited
  after_complete rows true = show_rows rows

  -- The last block; `ec` and `ei` are those of `async_prepare_statement` throughout.
  unfoldable pub select_block : MysqlTask End
  select_block = do
    stm ← async_prepare_statement select_sql
    check stm.ec
        (error (codes "async_prepare_statement : {}-{}")
          (message stm.ec ∷ stm.additional_info ∷ []))
        (do
          (select_ec, result) ← async_execute stm.value params
          check select_ec (error (codes "async_execute : {}") (message stm.ec ∷ [])) (do
            rows ← read_all result
            check rows.ec
                (error (codes "read_all : {}-{}") (message rows.ec ∷ stm.additional_info ∷ []))
                (do whole ← perform (complete result); after_complete rows.value whole)))

  unfoldable pub insert_block : MysqlTask End → MysqlTask End
  insert_block rest = do
    stm ← async_prepare_statement insert_sql
    check stm.ec
        (error (codes "async_prepare_statement : {}-{}")
          (message stm.ec ∷ stm.additional_info ∷ []))
        (do
          (insert_ec, resultset) ← async_execute stm.value params
          check insert_ec (error (codes "async_execute : {}") (message insert_ec ∷ [])) rest)

  -- A failure to create the table is logged, and the coroutine goes on.
  abbrev pub after_create : Answered ℕ → MysqlTask End → MysqlTask End
  after_create created rest =
      if failed created.ec
      then (perform
            (log (error (codes "{}-{}") (message created.ec ∷ created.additional_info ∷ [])))
          >>= λ _. rest)
      else rest

  unfoldable pub create_block : MysqlTask End → MysqlTask End
  create_block rest = do
    dropped ← async_query drop_table_sql
    created ← async_query create_table_sql
    after_create created rest

  unfoldable pub connect_block : MysqlTask End → MysqlTask End
  connect_block rest = do
    (ec, ep) ← async_resolve (codes "127.0.0.1") (codes "3309")
    check ec (error (codes "async_resolve: {}") (message ec ∷ [])) (do
      connect_ec ← async_connect ep
      check connect_ec (error (codes "async_connect: {}") (message connect_ec ∷ [])) rest)

  unfoldable pub main_task : MysqlTask End
  main_task = connect_block (create_block (insert_block select_block))
