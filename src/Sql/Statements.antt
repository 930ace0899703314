-- ===== src/Sql/Statements.antt =====
-- src/test.cpp: the statements that `main` builds with sqlpp11 on the table, and what the database
-- that runs them is relied on for. Rows have no order: the contents of a table are a multiset.
use mathlib.Mathlib.Data.Multiset.Defs.{Multiset, of_list}
use mathlib.Mathlib.Data.Multiset.AddSub.{add}
use mathlib.Mathlib.Data.Multiset.Filter.{filter}
use mathlib.Mathlib.Data.Multiset.MapFold as MapFold
use example.Base.{
  ℕ, ◌≡◌, refl, sym, Bool, true, false, Option, none, some, List, [], ◌∷◌, Text, map, ltb, ◌==◌,
  if◌then◌else◌,
}
use example.Yaml.{ℤ, pos, negsuc}
use example.Sql.{Column, column_age, columns, Value, Row, get, set, project}

-- `stu.age = 12`.
abbrev pub Assignment : Type 0
Assignment = (c : Column) × Value c

abbrev pub assign_all : List Assignment → Row columns → Row columns
assign_all [] r = r
assign_all ((c, v) ∷ xs) r = assign_all xs (set c v r)

-- A row that an insertion gives: NULL where it assigns nothing.
abbrev pub inserted : List Assignment → Row columns
inserted xs = assign_all xs (record { name = none }, (record { age = none }, tt))

-- `stu.age == n` and `stu.age > n`.
pub data Condition : Type 0 where
  age_equal_to age_greater_than : ℤ → Condition

abbrev pub eq_int : ℤ → ℤ → Bool
eq_int (pos a) (pos b) = a == b
eq_int (pos a) (negsuc b) = false
eq_int (negsuc a) (pos b) = false
eq_int (negsuc a) (negsuc b) = a == b

abbrev pub lt_int : ℤ → ℤ → Bool
lt_int (pos a) (pos b) = ltb a b
lt_int (pos a) (negsuc b) = false
lt_int (negsuc a) (pos b) = true
lt_int (negsuc a) (negsuc b) = ltb b a

abbrev pub compares : Condition → ℤ → Bool
compares (age_equal_to n) age = eq_int age n
compares (age_greater_than n) age = lt_int n age

-- A comparison with NULL selects no row.
abbrev pub test_value : Condition → Option ℤ → Bool
test_value c none = false
test_value c (some age) = compares c age

abbrev pub holds : Condition → Row columns → Bool
holds c r = test_value c (get column_age r)

pub data Statement : Type 0 where
  insert_set : List Assignment → Statement
  insert_values : List (List Assignment) → Statement
  remove_from : Condition → Statement
  select : List Column → Condition → Statement
  update : List Assignment → Condition → Statement

abbrev pub Answer : Statement → Type 0
Answer (insert_set xs) = Unit
Answer (insert_values rows) = Unit
Answer (remove_from c) = Unit
Answer (select cs c) = List (Row cs)
Answer (update xs c) = Unit

-- A call returns, or throws an `sqlpp::exception` with its text.
pub data Result (A D : Type 0) : Type 0 where
  done : A → D → Result A D
  raised : Text → D → Result A D

-- `sqlpp::mysql::connection_config`.
pub record Config : Type 0 where
  pub host : Text
  pub user : Text
  pub password : Text
  pub database : Text
  pub port : ℕ
  pub auto_reconnect : Bool
  pub debug : Bool

-- The connection, with the server behind it, in states D.
pub record Database (D : Type 0) : Type 0 where
  pub connect : Config → Result Unit D
  pub execute : Text → D → Result Unit D
  pub perform : (st : Statement) → D → Result (Answer st) D

pub apart : true ≡ false → ⊥
apart e = cc

-- What a statement is documented to do with the rows.
abbrev pub is_true : (b : Bool) → Dec (b ≡ true)
is_true true = yes refl
is_true false = no (λ e. apart (sym e))

abbrev pub is_false : (b : Bool) → Dec (b ≡ false)
is_false true = no apart
is_false false = yes refl

abbrev pub selected : Condition → Multiset (Row columns) → Multiset (Row columns)
selected c = filter (λ r. is_true (holds c r))

abbrev pub rejected : Condition → Multiset (Row columns) → Multiset (Row columns)
rejected c = filter (λ r. is_false (holds c r))

abbrev pub updated : List Assignment → Condition → Row columns → Row columns
updated xs c r = if holds c r then assign_all xs r else r

abbrev pub effect : Statement → Multiset (Row columns) → Multiset (Row columns)
effect (insert_set xs) b = add (of_list (inserted xs ∷ [])) b
effect (insert_values rows) b = add (of_list (map inserted rows)) b
effect (remove_from c) b = rejected c b
effect (select cs c) b = b
effect (update xs c) b = MapFold.map (updated xs c) b

-- The rows of an answer, in the order that the database chooses.
abbrev pub Answers : (st : Statement) → Answer st → Multiset (Row columns) → Type 0
Answers (insert_set xs) a b = Unit
Answers (insert_values rows) a b = Unit
Answers (remove_from c) a b = Unit
Answers (select cs c) a b = of_list a ≡ MapFold.map (project cs) (selected c b)
Answers (update xs c) a b = Unit
