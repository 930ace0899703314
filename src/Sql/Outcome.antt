-- ===== src/Sql/Outcome.antt =====
-- src/test.cpp: where the block on the table stops, and what it leaves and prints.
use example.Base.{Option, none, some, List, [], ◌∷◌, Text}
use example.Sql.Statements.{Result, done, raised, Database}
use example.Sql.Main.{
  Call, connect, execute, perform, config, drop_sql, create_sql, insert_one, multi_insert,
  remove_statement, select_statement, update_statement, Output, and_then, sql_block,
}

-- The calls of a plan in order up to the first one that throws; only its text is logged.
pub data Stops : List Call → List (Call × Option Text) → List Text → Type 0 where
  complete : Stops [] [] []
  thrown :
      (call : Call) (plan : List Call) (e : Text)
      → Stops (call ∷ plan) ((call, some e) ∷ []) (e ∷ [])
  later :
      (call : Call) {plan : List Call} {made : List (Call × Option Text)} {logged : List Text}
      → Stops plan made logged
      → Stops (call ∷ plan) ((call, none) ∷ made) logged

module _ {D : Type 0} where
  abbrev pub OutputStops : List Call → Output D → Type 0
  OutputStops plan o = Stops plan o.calls o.logged

  and_then-Stops :
      {A : Type 0} (call : Call) (plan : List Call) (r : Result A D) (rest : A → D → Output D)
      → ((a : A) (d : D) → OutputStops plan (rest a d))
      → OutputStops (call ∷ plan) (and_then call r rest)
  and_then-Stops call plan (done a d) rest h = later call (h a d)
  and_then-Stops call plan (raised e d) rest h = thrown call plan e

-- The eight calls of the block.
abbrev pub plan : List Call
plan =
    connect config
    ∷ execute drop_sql
    ∷ execute create_sql
    ∷ perform insert_one
    ∷ perform multi_insert
    ∷ perform remove_statement
    ∷ perform select_statement
    ∷ perform update_statement
    ∷ []

-- Whatever the database does, the block makes its calls in order up to the first that throws an
-- exception: then it logs the text of that one, and otherwise nothing.
pub sql_block-Stops :
    {D : Type 0} (db : Database D) (null_text : Text)
    → Stops plan (sql_block db null_text).calls (sql_block db null_text).logged
unfolding sql_block
sql_block-Stops db null_text = and_then-Stops (connect config) _ (db.connect config) _ λ u d.
    and_then-Stops (execute drop_sql) _ (db.execute drop_sql d) _ λ u d.
      and_then-Stops (execute create_sql) _ (db.execute create_sql d) _ λ u d.
        and_then-Stops (perform insert_one) _ (db.perform insert_one d) _ λ u d.
          and_then-Stops (perform multi_insert) _ (db.perform multi_insert d) _ λ u d.
            and_then-Stops (perform remove_statement) _ (db.perform remove_statement d) _ λ u d.
              and_then-Stops (perform select_statement) _ (db.perform select_statement d) _
                λ rows d.
                  and_then-Stops (perform update_statement) _ (db.perform update_statement d) _
                    λ u d. complete
