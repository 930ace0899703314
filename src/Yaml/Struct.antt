-- ===== src/Yaml/Struct.antt =====
-- src/test_yaml_cpp_struct.cpp: the two structs, the enum, and main.
-- A `double` is a type of its own, printed by the function that is passed.
use example.Asio.{Line, info, error}
use example.Base.{
  ℕ, Bool, Option, none, some, List, [], ◌∷◌, ◌++◌, if◌then◌else◌, ◌==◌, Text, codes,
}
use example.Yaml.{
  ℤ, pos, negsuc, Value, int32, decimal, to_string_arithmetic, to_string_tuple, to_string_bool,
  to_string_string, to_string_vector, to_string_set, to_string_optional, to_string_map,
}

-- A value of the enum is any uint8_t.
pub record AccountType : Type 0 where
  pub underlying : ℕ

abbrev pub Personal : AccountType
Personal = record { underlying = 1 }

abbrev pub Company : AccountType
Company = record { underlying = 2 }

-- A text, or the exception that is thrown.
pub data Result : Type 0 where
  ok : Text → Result
  bad_cast : Result

unfoldable pub to_string_account_type : AccountType → Result
to_string_account_type type =
    if type.underlying == Personal.underlying
    then ok (codes "Personal")
    else if type.underlying == Company.underlying
    then ok (codes "Company")
    else bad_cast

pub record AccountInfo : Type 0 where
  pub flag : Bool
  pub name : Text
  pub address : List (Text × ℤ)
  pub num : Option Text
  pub msec : ℤ
  pub tuple : Text × ℕ
  pub map_tuple : List (Text × (Text × ℤ))

-- The members of the two tuple types.
abbrev pub tuple_values : Text × ℕ → List Value
tuple_values (s, n) = Value.string s ∷ Value.uint8 n ∷ []

abbrev pub map_tuple_values : Text × ℤ → List Value
map_tuple_values (s, n) = Value.string s ∷ int32 n ∷ []

-- A stream that the texts are put into, one after the other.
abbrev pub concat : List Text → Text
concat [] = []
concat (t ∷ ts) = t ++ concat ts

unfoldable pub to_string_account_info : AccountInfo → Text
to_string_account_info aif = concat (
    codes "AccountInfo"
    ∷ codes " name="
    ∷ aif.name
    ∷ codes " address="
    ∷ to_string_map to_string_string to_string_arithmetic aif.address
    ∷ codes " num="
    ∷ to_string_optional to_string_string aif.num
    ∷ codes " msec="
    ∷ to_string_arithmetic aif.msec
    ∷ codes " tuple="
    ∷ to_string_tuple (tuple_values aif.tuple)
    ∷ codes " map_tuple="
    ∷ to_string_map to_string_string (λ t. to_string_tuple (map_tuple_values t)) aif.map_tuple
    ∷ codes " flag="
    ∷ to_string_bool aif.flag
    ∷ [])

pub record Config (Double : Type 0) : Type 0 where
  pub ch : ℤ
  pub price : Double
  pub count : ℤ
  pub content : Text
  pub map : List (Text × Text)
  pub account_info : AccountInfo
  pub vec : List Text
  pub set_vec : List ℕ
  pub account_type : AccountType

-- How main ends: with an exit code, or by an exception that nothing catches.
pub data End : Type 0 where
  exit : ℤ → End
  terminated : End

module _ {Double : Type 0} (double_text : Double → Text) where
  abbrev pub config_pieces : Config Double → Text → List Text
  config_pieces cfg account_type =
      codes "Config"
      ∷ codes " price="
      ∷ double_text cfg.price
      ∷ codes " count="
      ∷ to_string_arithmetic cfg.count
      ∷ codes " content="
      ∷ cfg.content
      ∷ codes " map="
      ∷ to_string_map to_string_string to_string_string cfg.map
      ∷ codes " account_info="
      ∷ to_string_account_info cfg.account_info
      ∷ codes " vec="
      ∷ to_string_vector to_string_string cfg.vec
      ∷ codes " set_vec="
      ∷ to_string_set decimal cfg.set_vec
      ∷ codes " account_type="
      ∷ account_type
      ∷ codes " ch="
      ∷ to_string_arithmetic cfg.ch
      ∷ []

  unfoldable pub to_string_config : Config Double → Result
  to_string_config cfg = elim (to_string_account_type cfg.account_type) [
    | ok account_type ↦ ok (concat (config_pieces cfg account_type))
    | bad_cast ↦ bad_cast
  ]

  module _ (from_yaml : Text → Option (Config Double) × Text)
      (to_yaml : Config Double → Option Text × Text) where
    -- main behind `to_string`: what `value()` throws on an empty result ends the program.
    abbrev pub print_yaml : Option Text → Text → List Line × End
    print_yaml none printed = (info (codes "\n{}") (printed ∷ []) ∷ [], terminated)
    print_yaml (some str) printed =
        (info (codes "\n{}") (printed ∷ []) ∷ info (codes "\n{}") (str ∷ []) ∷ [], exit (pos 0))

    abbrev pub print_config : Config Double → Result → List Line × End
    print_config cfg bad_cast = ([], terminated)
    print_config cfg (ok printed) = print_yaml (to_yaml cfg).0 printed

    unfoldable pub main : Text → List Line × End
    unfolding to_string_config
    main argv1 =
        let parsed = from_yaml argv1 in
        elim parsed.0 [
          | none ↦ (error (codes "{}") (parsed.1 ∷ []) ∷ [], exit (negsuc 0))
          | some cfg ↦ print_config cfg (to_string_config cfg)
        ]
