-- ===== src/Mysql/Tests.antt =====
-- The theorems of this folder, applied to a database that fails from a given operation on.
use example.Base.{ℕ, zero, suc, true, [], ◌∷◌, Text, codes}
use example.Coro.{Runtime, run}
use example.Asio.{ErrorCode, success, eof, other}
use example.Mysql.{
  Operation, Done, Answered, resolve, connect, query, read_rows, prepare_statement, execute, close,
  complete, log,
}
use example.Mysql.Main.{main_task}
use example.Mysql.Plan.{Explained, plan}
use example.Mysql.Explained.{main_task-Explained}

abbrev message : ErrorCode → Text
message success = codes "Success"
message eof = codes "End of file"
message (other n) = codes "Error"

-- `left` operations succeed, the others fail.
abbrev verdict : ℕ → ErrorCode
verdict zero = other 7
verdict (suc left) = success

abbrev pred : ℕ → ℕ
pred zero = 0
pred (suc left) = left

abbrev answer : {A : Type 0} → ℕ → A → Answered A
answer left a = record { ec = verdict left; additional_info = codes "why"; value = a }

abbrev failing : Runtime Operation Done ℕ
failing left (resolve host port) = (record { ec = verdict left; results = 1 ∷ [] }, pred left)
failing left (connect endpoint) = (verdict left, pred left)
failing left (query sql) = (answer left 1, pred left)
failing left (read_rows resultset) = (answer left (codes "row" ∷ []), pred left)
failing left (prepare_statement sql) = (answer left 2, pred left)
failing left (execute stmt args) = (answer left 3, pred left)
failing left close = (answer left tt, pred left)
failing left (complete resultset) = (true, left)
failing left (log line) = (tt, left)

main_task-Explained_example :
    Explained plan
      (run failing (main_task message) 4).result
      (run failing (main_task message) 4).events
main_task-Explained_example = main_task-Explained message failing 4
