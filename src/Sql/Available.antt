-- ===== src/Sql/Available.antt =====
-- src/test.cpp: what the block on the table prints and leaves where the database is available.
use mathlib.Mathlib.Data.Multiset.Defs.{Multiset, of_list}
use mathlib.Mathlib.Data.Multiset.MapFold as MapFold
use example.Base.{ℕ, ◌≡◌, refl, ap, ◌∙◌, Option, none, some, [], ◌∷◌, map, Text, codes, append-nil}
use example.Yaml.{pos, digits}
use example.Sql.{columns, Row}
use example.Sql.Statements.{Statement, Answer, Answers, effect, done, Config, Database}
use example.Sql.Main.{
  drop_sql, create_sql, insert_one, multi_insert, remove_statement, select_statement,
  update_statement, config, show_row, sql_block,
}

-- What is documented of a database that can be reached and that throws no exception: `contents` is
-- what the table TestSqlppTable holds, `none` where there is no such table.
pub record Available {D : Type 0} (db : Database D) (contents : D → Option (Multiset (Row columns)))
    : Type 0 where
  pub connects : (c : Config) → (d : D) × (db.connect c ≡ done tt d)
  pub drops : (d : D) → (e : D) × (db.execute drop_sql d ≡ done tt e) × (contents e ≡ none)
  pub creates :
      (d : D)
      → contents d ≡ none
      → (e : D) × (db.execute create_sql d ≡ done tt e) × (contents e ≡ some (of_list []))
  pub performs :
      (d : D) (b : Multiset (Row columns)) (st : Statement)
      → contents d ≡ some b
      → (a : Answer st) × (e : D) × (db.perform st d ≡ done a e)
        × (contents e ≡ some (effect st b))
        × Answers st a b

abbrev pub row : Text → ℕ → Row columns
row s n = (record { name = some s }, (record { age = some (pos n) }, tt))

-- The rows that the block leaves, and the lines that it prints, in some order.
abbrev pub left : Multiset (Row columns)
left = of_list (
    row (codes "linyiong0") 0
    ∷ row (codes "linyiong1") 1
    ∷ row (codes "linyiong2") 2
    ∷ row (codes "linyiong3") 3
    ∷ row (codes "linyilong3") 4
    ∷ row (codes "linyilong3") 5
    ∷ row (codes "linyilong3") 6
    ∷ row (codes "linyilong3") 7
    ∷ row (codes "linyilong3") 8
    ∷ row (codes "linyilong3") 9
    ∷ [])

abbrev pub lines : Multiset Text
lines = of_list (
    codes "linyiong2:2"
    ∷ codes "linyiong3:3"
    ∷ codes "linyiong4:4"
    ∷ codes "linyiong5:5"
    ∷ codes "linyiong6:6"
    ∷ codes "linyiong7:7"
    ∷ codes "linyiong8:8"
    ∷ codes "linyiong9:9"
    ∷ [])

-- The contents at the select statement, from an empty table.
abbrev before_select : Multiset (Row columns)
before_select = effect remove_statement (effect multi_insert (effect insert_one (of_list [])))

left_lem : effect update_statement (effect select_statement before_select) ≡ left
unfolding digits
left_lem = refl

lines_lem :
    (null_text : Text) (rows : Answer select_statement)
    → Answers select_statement rows before_select
    → of_list (map (show_row null_text) rows) ≡ lines
unfolding digits
lines_lem null_text rows h = ap (MapFold.map (show_row null_text)) h

-- With an available database, whatever it held before, the block logs nothing, prints the ages above 1
-- with their names, each once, and leaves the ten rows of the loop, renamed where the age is above 3.
pub sql_block_leaves :
    {D : Type 0} (db : Database D) (contents : D → Option (Multiset (Row columns)))
    (null_text : Text)
    → Available db contents
    → let o = sql_block db null_text in
      (o.logged ≡ []) × (of_list o.printed ≡ lines) × (contents o.final ≡ some left)
unfolding sql_block
sql_block_leaves db contents null_text v =
    let (d₀, e₀) = v.connects config in
    let (d₁, e₁, c₁) = v.drops d₀ in
    let (d₂, e₂, c₂) = v.creates d₁ c₁ in
    let (a₃, d₃, e₃, c₃, h₃) = v.performs d₂ _ insert_one c₂ in
    let (a₄, d₄, e₄, c₄, h₄) = v.performs d₃ _ multi_insert c₃ in
    let (a₅, d₅, e₅, c₅, h₅) = v.performs d₄ _ remove_statement c₄ in
    let (a₆, d₆, e₆, c₆, h₆) = v.performs d₅ _ select_statement c₅ in
    let (a₇, d₇, e₇, c₇, h₇) = v.performs d₆ _ update_statement c₆ in
    rw (sql_block, e₀, e₁, e₂, e₃, e₄, e₅, e₆, e₇, append-nil (map (show_row null_text) a₆))
      (refl, lines_lem null_text a₆ h₆, c₇ ∙ ap some left_lem)
