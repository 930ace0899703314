-- ===== src/Mysql/Plan.antt =====
-- src/test_boost_mysql.cpp: the operations of the coroutine of main in their order, and what explains how
-- it ends.
use example.Base.{
  codes, ℕ, ◌≡◌, refl, true, false, List, [], ◌∷◌, ◌++◌, append_assoc, none, ◌∙◌, All,
}
use example.Coro.{Event}
use example.Asio.{ErrorCode, success, failed, Line}
use example.Mysql.{
  Operation, Done, resolve, connect, query, read_rows, prepare_statement, execute, close, complete,
  log,
}
use example.Mysql.Main.{
  params, insert_sql, select_sql, drop_table_sql, create_table_sql, End, finished, returned, exited,
}

-- The error code that an operation completed with.
abbrev pub code : (op : Operation) → Done op → ErrorCode
code (resolve host port) d = d.ec
code (connect endpoint) ec = ec
code (query sql) d = d.ec
code (read_rows resultset) d = d.ec
code (prepare_statement sql) d = d.ec
code (execute stmt args) d = d.ec
code close d = d.ec
code (complete resultset) d = success
code (log line) d = success

-- An operation after which the coroutine goes on: a query, whatever became of it, a result set that is
-- complete, or an operation that succeeded.
abbrev pub Fine : Event Operation Done → Type 0
Fine (query sql, d) = Unit {0}
Fine (complete resultset, whole) = whole ≡ true
Fine (op, d) = failed (code op d) ≡ false

-- An operation without the numbers of its endpoint, statement or result set; none for a log line.
abbrev pub bare : Operation → List Operation
bare (resolve host port) = resolve host port ∷ []
bare (connect endpoint) = connect none ∷ []
bare (query sql) = query sql ∷ []
bare (read_rows resultset) = read_rows 0 ∷ []
bare (prepare_statement sql) = prepare_statement sql ∷ []
bare (execute stmt args) = execute 0 args ∷ []
bare close = close ∷ []
bare (complete resultset) = complete 0 ∷ []
bare (log line) = []

abbrev pub made : List (Event Operation Done) → List Operation
made [] = []
made ((op, d) ∷ es) = bare op ++ made es

-- An early return is explained by the operation before its one log line, which failed; `exit` by a
-- result set that is not complete; and in all cases each operation before that was fine. The operations
-- made are those of the plan, all of them or, in an early return, the first of them.
abbrev pub Explained : List Operation → End → List (Event Operation Done) → Type 0
Explained plan finished es = All Fine es × (made es ≡ plan)
Explained plan returned es =
    (pre : List (Event Operation Done)) × (op : Operation) × (d : Done op) × (line : Line) × (es
      ≡ pre ++ ((op, d) ∷ (log line, tt) ∷ []))
    × All Fine pre
    × (failed (code op d) ≡ true)
    × (rest : List Operation) × (made es ++ rest ≡ plan)
Explained plan exited es =
    (pre : List (Event Operation Done)) × (resultset : ℕ) × (line : Line) × (es
      ≡ pre ++ ((complete resultset, false) ∷ (log line, tt) ∷ []))
    × All Fine pre
    × (made es ≡ plan)

-- A fine operation in front.
pub Explained-cons :
    (plan : List Operation) (end : End) (op : Operation) (d : Done op)
    (ys : List (Event Operation Done))
    → Fine (op, d)
    → Explained plan end ys
    → Explained (bare op ++ plan) end ((op, d) ∷ ys)
Explained-cons plan finished op d ys h (k, m) = ((h, k), rw m refl)
Explained-cons plan returned op d ys h (pre, o, e, line, q, fine, bad, rest, m) = (
  (op, d) ∷ pre,
  o,
  e,
  line,
  rw q refl,
  (h, fine),
  bad,
  rest,
  append_assoc (bare op) (made ys) rest ∙ rw m refl,
)
Explained-cons plan exited op d ys h (pre, resultset, line, e, fine, m) =
    ((op, d) ∷ pre, resultset, line, rw e refl, (h, fine), rw m refl)

-- The operations of the coroutine, in its order.
abbrev pub plan : List Operation
plan =
    resolve (codes "127.0.0.1") (codes "3309")
    ∷ connect none
    ∷ query drop_table_sql
    ∷ query create_table_sql
    ∷ prepare_statement insert_sql
    ∷ execute 0 params
    ∷ prepare_statement select_sql
    ∷ execute 0 params
    ∷ read_rows 0
    ∷ complete 0
    ∷ []
