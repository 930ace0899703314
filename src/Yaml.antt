-- ===== src/Yaml.antt =====
-- src/test_yaml_cpp_struct.cpp: the overloads of `to_string`.
-- A set and a map are lists, in the order in which their iterators visit them.
pub mod Struct
pub mod Joined
pub mod ReadBack
pub mod Printed
pub mod Decimal
mod Tests
use example.Base.{
  ℕ, zero, suc, ◌+◌, ◌*◌, ◌/◌, ◌%◌, Bool, true, false, Option, none, some, List, [], ◌∷◌, ◌++◌, ltb,
  if◌then◌else◌, Text, codes, ◌-◌,
}

-- A signed integer of C++, in the constructors of the library's integers.
pub data ℤ : Type 0 where
  pos negsuc : ℕ → ℤ

-- The decimal digits of a number, put in front of a text. Each round uses one unit of the fuel.
unfoldable pub digits : ℕ → ℕ → Text → Text
digits zero n acc = acc
digits (suc fuel) n acc =
    let rest = digits fuel (n / 10) ((48 + n % 10) ∷ acc) in
    if ltb n 10 then (48 + n) ∷ acc else rest

abbrev pub decimal : ℕ → Text
decimal n = digits (suc n) n []

-- `std::to_string` of an arithmetic type other than bool, and what a stream prints of it.
abbrev pub to_string_arithmetic : ℤ → Text
to_string_arithmetic (pos n) = decimal n
to_string_arithmetic (negsuc n) = codes "-" ++ decimal (suc n)

-- The types that the variadic overload is called with.
pub data Value : Type 0 where
  int8 : ℤ → Value
  uint8 : ℕ → Value
  int32 : ℤ → Value
  string : Text → Value

-- `func`: the two types of one byte are cast to an int32.
abbrev pub func : Value → Value
func (int8 n) = int32 n
func (uint8 n) = int32 (pos n)
func (int32 n) = int32 n
func (string s) = string s

-- The `char` that a byte is.
abbrev pub char_of : ℤ → ℕ
char_of (pos n) = n
char_of (negsuc n) = 255 - n

-- `ss << value`: a type of one byte is printed as a character.
abbrev pub stream : Value → Text
stream (int8 n) = char_of n ∷ []
stream (uint8 n) = n ∷ []
stream (int32 n) = to_string_arithmetic n
stream (string s) = s

-- The fold of the variadic overload: the stream, the separator and the arguments left.
unfoldable pub fold_values : Text → Text → List Value → Text
fold_values ss sep [] = ss
fold_values ss sep (t ∷ ts) = fold_values (ss ++ (sep ++ stream (func t))) (codes " ") ts

unfoldable pub to_string : List Value → Text
unfolding fold_values
to_string ts = fold_values [] [] ts

-- The members of a tuple are the arguments.
unfoldable pub to_string_tuple : List Value → Text
unfolding to_string
to_string_tuple t = to_string t

abbrev pub to_string_bool : Bool → Text
to_string_bool true = codes "true"
to_string_bool false = codes "false"

abbrev pub to_string_string : Text → Text
to_string_string value = value

module _ {ℓ} {T : Type ℓ} (to_string_item : T → Text) where
  -- The loop over the items behind the first.
  unfoldable pub items_loop : Text → List T → Text
  items_loop str [] = str
  items_loop str (it ∷ its) = items_loop ((str ++ codes ",") ++ to_string_item it) its

  unfoldable pub to_string_vector : List T → Text
  unfolding items_loop
  to_string_vector [] = codes "[" ++ codes "]"
  to_string_vector (it ∷ its) = items_loop (codes "[" ++ to_string_item it) its ++ codes "]"

  unfoldable pub to_string_set : List T → Text
  unfolding items_loop
  to_string_set [] = codes "[" ++ codes "]"
  to_string_set (it ∷ its) = items_loop (codes "[" ++ to_string_item it) its ++ codes "]"

  -- For a type that is neither fundamental nor a string, `to_string_item` is its `to_string`;
  -- otherwise it is what a stream prints.
  unfoldable pub to_string_optional : Option T → Text
  to_string_optional (some value) = to_string_item value
  to_string_optional none = codes "(nullopt)"

module _ {ℓ κ} {K : Type ℓ} {V : Type κ} (to_string_key : K → Text)
    (to_string_value : V → Text) where
  unfoldable pub entries_loop : Text → List (K × V) → Text
  entries_loop str [] = str
  entries_loop str ((k, v) ∷ its) =
      entries_loop ((((str ++ codes ",") ++ to_string_key k) ++ codes "->") ++ to_string_value v)
        its

  unfoldable pub to_string_map : List (K × V) → Text
  unfolding entries_loop
  to_string_map [] = codes "{" ++ codes "}"
  to_string_map ((k, v) ∷ its) =
      entries_loop (((codes "{" ++ to_string_key k) ++ codes "->") ++ to_string_value v) its
      ++ codes "}"
