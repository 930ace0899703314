-- ===== src/Sql.antt =====
-- include/TestSqlppTable.h: the table TestSqlppTable, its columns, and the rows that they describe.
pub mod Statements
pub mod Main
pub mod Outcome
pub mod Available
mod Tests
use example.Base.{ℕ, suc, ◌≡◌, Option, none, some, List, [], ◌∷◌, Text, codes, length}
use example.Yaml.{ℤ}

-- `sqlpp::varchar` and `sqlpp::integer`.
pub data DataType : Type 0 where
  varchar integer : DataType

pub data Tag : Type 0 where
  can_be_null : Tag

-- `sqlpp::make_traits`.
pub record Traits : Type 0 where
  pub data_type : DataType
  pub tag : Tag

-- `sqlpp::make_char_sequence`, with its two arguments.
pub record CharSequence : Type 0 where
  pub size : ℕ
  pub input : Text

-- `_alias_t`; `sizeof` of a literal counts the zero at its end.
pub record Alias : Type 0 where
  pub literal : Text
  pub name_t : CharSequence

abbrev size_of : Text → ℕ
size_of literal = suc (length literal)

-- The column structs, `Name` and `Age`.
pub data Column : Type 0 where
  column_name column_age : Column

abbrev name_alias : Alias
name_alias = record {
  literal = codes "name";
  name_t = record { size = size_of (codes "name"); input = codes "name" };
}

abbrev age_alias : Alias
age_alias = record {
  literal = codes "age";
  name_t = record { size = size_of (codes "age"); input = codes "age" };
}

abbrev pub alias_of : Column → Alias
alias_of column_name = name_alias
alias_of column_age = age_alias

abbrev name_traits : Traits
name_traits = record { data_type = varchar; tag = can_be_null }

abbrev age_traits : Traits
age_traits = record { data_type = integer; tag = can_be_null }

abbrev pub traits : Column → Traits
traits column_name = name_traits
traits column_age = age_traits

abbrev pub table_alias : Alias
table_alias = record {
  literal = codes "TestSqlppTable";
  name_t = record { size = size_of (codes "TestSqlppTable"); input = codes "TestSqlppTable" };
}

-- The columns that the table passes to `sqlpp::table_t`.
abbrev pub columns : List Column
columns = column_name ∷ column_age ∷ []

-- A reference to a T inside an S, as `operator()` returns it: what it reads, and what a write through
-- it does.
pub record Reference (S T : Type 0) : Type 0 where
  pub read : S → T
  pub assign : T → S → S

-- The three templates `_member_t` with their `operator()`.
pub record NameMember (T : Type 0) : Type 0 where
  pub name : T

abbrev pub name_ref : {T : Type 0} → Reference (NameMember T) T
name_ref = record { read = λ m. m.name; assign = λ v m. record m { name = v } }

pub record AgeMember (T : Type 0) : Type 0 where
  pub age : T

abbrev pub age_ref : {T : Type 0} → Reference (AgeMember T) T
age_ref = record { read = λ m. m.age; assign = λ v m. record m { age = v } }

pub record TableMember (T : Type 0) : Type 0 where
  pub test_sqlpp_table : T

abbrev pub table_ref : {T : Type 0} → Reference (TableMember T) T
table_ref = record {
  read = λ m. m.test_sqlpp_table;
  assign = λ v m. record m { test_sqlpp_table = v };
}

abbrev pub Member : Column → Type 0 → Type 0
Member column_name T = NameMember T
Member column_age T = AgeMember T

abbrev pub member : (c : Column) {T : Type 0} → T → Member c T
member column_name v = record { name = v }
member column_age v = record { age = v }

-- The values of a type, and of a column: `none` is NULL.
abbrev pub Content : DataType → Type 0
Content varchar = Text
Content integer = ℤ

abbrev pub Tagged : Tag → Type 0 → Type 0
Tagged can_be_null T = Option T

abbrev pub Value : Column → Type 0
Value c = Tagged (traits c).tag (Content (traits c).data_type)

-- A row has the member of each of its columns.
abbrev pub Row : List Column → Type 0
Row [] = Unit
Row (c ∷ cs) = Member c (Value c) × Row cs

-- The value that a row of the table has in a column, and the row with another: what the database does
-- to its rows, no code of the header.
abbrev pub get : (c : Column) → Row columns → Value c
get column_name (n, (a, u)) = n.name
get column_age (n, (a, u)) = a.age

abbrev pub set : (c : Column) → Value c → Row columns → Row columns
set column_name v (n, (a, u)) = (record n { name = v }, (a, u))
set column_age v (n, (a, u)) = (n, (record a { age = v }, u))

abbrev pub project : (cs : List Column) → Row columns → Row cs
project [] r = tt
project (c ∷ cs) r = (member c (get c r), project cs r)
