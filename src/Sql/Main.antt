-- ===== src/Sql/Main.antt =====
-- src/test.cpp: the block of `main` that works on the table. An `sqlpp::exception` ends it, and its
-- text is logged. What a stream prints of NULL is an argument.
use example.Base.{
  ℕ, zero, suc, true, false, Option, none, some, List, [], ◌∷◌, ◌++◌, map, Text, codes,
}
use example.Yaml.{pos, to_string_arithmetic}
use example.Sql.{Column, column_name, column_age, Row}
use example.Sql.Statements.{
  Assignment, age_equal_to, age_greater_than, Statement, insert_set, insert_values, remove_from,
  select, update, Result, done, raised, Config, Database,
}

abbrev pub config : Config
config = record {
  host = codes "127.0.0.1";
  user = codes "mybb";
  password = codes "changeme";
  database = codes "mybb";
  port = 3307;
  auto_reconnect = true;
  debug = false;
}

abbrev pub drop_sql : Text
drop_sql = codes "DROP TABLE IF EXISTS TestSqlppTable"

abbrev pub create_sql : Text
create_sql = codes "CREATE TABLE TestSqlppTable (name VARCHAR(100),age INTEGER)"

abbrev pub insert_one : Statement
insert_one = insert_set ((column_age, some (pos 12)) ∷ (column_name, some (codes "one")) ∷ [])

-- The loop that fills `multi_insert`, from i on.
abbrev pub add_values : ℕ → ℕ → List (List Assignment)
add_values zero i = []
add_values (suc n) i =
    ((column_age, some (pos i))
      ∷ (column_name, some (codes "linyiong" ++ to_string_arithmetic (pos i)))
      ∷ [])
    ∷ add_values n (suc i)

abbrev pub multi_insert : Statement
multi_insert = insert_values (add_values 10 0)

abbrev pub selection : List Column
selection = column_name ∷ column_age ∷ []

abbrev pub remove_statement : Statement
remove_statement = remove_from (age_equal_to (pos 12))

abbrev pub select_statement : Statement
select_statement = select selection (age_greater_than (pos 1))

abbrev pub update_statement : Statement
update_statement = update ((column_name, some (codes "linyilong3")) ∷ []) (age_greater_than (pos 3))

-- A call that the block makes.
pub data Call : Type 0 where
  connect : Config → Call
  execute : Text → Call
  perform : Statement → Call

-- The calls made, each with the text that it threw; what was printed, and what was logged.
pub record Output (D : Type 0) : Type 0 where
  pub calls : List (Call × Option Text)
  pub printed : List Text
  pub logged : List Text
  pub final : D

module _ {D : Type 0} where
  -- A call, and the rest of the block unless it throws.
  abbrev pub and_then : {A : Type 0} → Call → Result A D → (A → D → Output D) → Output D
  and_then call (done a d) rest = let o = rest a d in record o { calls = (call, none) ∷ o.calls }
  and_then call (raised e d) rest = record {
    calls = (call, some e) ∷ [];
    printed = [];
    logged = e ∷ [];
    final = d;
  }

  abbrev pub printing : List Text → Output D → Output D
  printing lines o = record o { printed = lines ++ o.printed }

  abbrev pub finished : D → Output D
  finished d = record { calls = []; printed = []; logged = []; final = d }

abbrev pub show_text : Text → Option Text → Text
show_text null_text none = null_text
show_text null_text (some s) = s

abbrev pub show_row : Text → Row selection → Text
show_row null_text (n, (a, u)) =
    show_text null_text n.name
    ++ (codes ":" ++ elim a.age [ none ↦ null_text | some i ↦ to_string_arithmetic i ])

unfoldable pub sql_block : {D : Type 0} → Database D → Text → Output D
sql_block db null_text = and_then (connect config) (db.connect config) λ u d.
    and_then (execute drop_sql) (db.execute drop_sql d) λ u d.
      and_then (execute create_sql) (db.execute create_sql d) λ u d.
        and_then (perform insert_one) (db.perform insert_one d) λ u d.
          and_then (perform multi_insert) (db.perform multi_insert d) λ u d.
            and_then (perform remove_statement) (db.perform remove_statement d) λ u d.
              and_then (perform select_statement) (db.perform select_statement d) λ rows d.
                printing (map (show_row null_text) rows) (
                  and_then (perform update_statement) (db.perform update_statement d)
                    λ u d. finished d)
