-- ===== src/Sql/Tests.antt =====
-- A database that keeps the rows in a list, and the block on the table run on it.
use mathlib.Core.List
use mathlib.Core.Path.{subst}
use mathlib.Core.Option.{some_inj}
use mathlib.Mathlib.Data.Multiset.Defs.{Multiset, of_list}
use example.Base.{
  ◌≡◌, refl, ap, Option, none, some, List, [], ◌∷◌, ◌++◌, map, Text, codes, eq_text, if◌then◌else◌,
}
use example.Sql.{columns, Row, project}
use example.Sql.Statements.{
  Statement, insert_set, insert_values, remove_from, select, update, Answer, Answers, effect,
  Result, done, raised, Database, inserted, is_true, is_false, holds, updated,
}
use example.Sql.Main.{drop_sql, create_sql, sql_block}
use example.Sql.Outcome.{Stops, plan, sql_block-Stops}
use example.Sql.Available.{Available, lines, left, sql_block_leaves}

abbrev Table : Type 0
Table = Option (List (Row columns))

abbrev rows_after : Statement → List (Row columns) → List (Row columns)
rows_after (insert_set xs) l = inserted xs ∷ l
rows_after (insert_values rows) l = map inserted rows ++ l
rows_after (remove_from c) l = List.filter (λ r. is_false (holds c r)) l
rows_after (select cs c) l = l
rows_after (update xs c) l = map (updated xs c) l

abbrev answer : (st : Statement) → List (Row columns) → Answer st
answer (insert_set xs) l = tt
answer (insert_values rows) l = tt
answer (remove_from c) l = tt
answer (select cs c) l = map (project cs) (List.filter (λ r. is_true (holds c r)) l)
answer (update xs c) l = tt

abbrev no_table : Text
no_table = codes "Table 'mybb.TestSqlppTable' doesn't exist"

abbrev run_sql : Text → Table → Result Unit Table
run_sql sql t =
    if eq_text sql drop_sql
    then done tt none
    else if eq_text sql create_sql
    then done tt (some [])
    else raised no_table t

abbrev run_statement : (st : Statement) → Table → Result (Answer st) Table
run_statement st none = raised no_table none
run_statement st (some l) = done (answer st l) (some (rows_after st l))

abbrev in_memory : Table → Database Table
in_memory t = record { connect = λ c. done tt t; execute = run_sql; perform = run_statement }

abbrev rows_of : Table → Option (Multiset (Row columns))
rows_of none = none
rows_of (some l) = some (of_list l)

rows_after_lem :
    (st : Statement) (l : List (Row columns)) → of_list (rows_after st l) ≡ effect st (of_list l)
rows_after_lem (insert_set xs) l = refl
rows_after_lem (insert_values rows) l = refl
rows_after_lem (remove_from c) l = refl
rows_after_lem (select cs c) l = refl
rows_after_lem (update xs c) l = refl

answer-Answers : (st : Statement) (l : List (Row columns)) → Answers st (answer st l) (of_list l)
answer-Answers (insert_set xs) l = tt
answer-Answers (insert_values rows) l = tt
answer-Answers (remove_from c) l = tt
answer-Answers (select cs c) l = refl
answer-Answers (update xs c) l = tt

performs_lem :
    (d : Table) (b : Multiset (Row columns)) (st : Statement)
    → rows_of d ≡ some b
    → (a : Answer st) × (e : Table) × (run_statement st d ≡ done a e)
      × (rows_of e ≡ some (effect st b))
      × Answers st a b
performs_lem none b st h = absurd (cc)
performs_lem (some l) b st h =
    subst
      (λ b.
        (a : Answer st) × (e : Table) × (run_statement st (some l) ≡ done a e)
        × (rows_of e ≡ some (effect st b))
        × Answers st a b)
      (some_inj.0 h)
      (
        answer st l,
        some (rows_after st l),
        refl,
        ap some (rows_after_lem st l),
        answer-Answers st l,
      )

in_memory-Available : (t : Table) → Available (in_memory t) rows_of
in_memory-Available t = record {
  connects = λ c. (t, refl);
  drops = λ d. (none, refl, refl);
  creates = λ d h. (some [], refl, refl);
  performs = performs_lem;
}

sql_block_leaves_example :
    let o = sql_block (in_memory none) (codes "NULL") in
    (o.logged ≡ []) × (of_list o.printed ≡ lines) × (rows_of o.final ≡ some left)
sql_block_leaves_example =
    sql_block_leaves (in_memory none) rows_of (codes "NULL") (in_memory-Available none)

sql_block-Stops_example :
    let o = sql_block (in_memory none) (codes "NULL") in Stops plan o.calls o.logged
sql_block-Stops_example = sql_block-Stops (in_memory none) (codes "NULL")
