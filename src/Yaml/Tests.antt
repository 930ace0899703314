-- ===== src/Yaml/Tests.antt =====
-- The printing of values and of configurations, on small inputs.
use example.Base.{true, Option, none, some, [], ◌∷◌, ◌++◌, Text, codes, ◌≡◌, refl, map}
use example.Yaml.{
  pos, negsuc, uint8, string, decimal, to_string_tuple, to_string_vector, to_string_set,
  to_string_map, to_string_arithmetic, to_string_string, digits, to_string_optional,
}
use example.Yaml.Struct.{AccountInfo, Config, to_string_account_info, Company}
use example.Yaml.Decimal.{read_digits}
use example.Yaml.ReadBack.{split, numbers_read_back}

-- A byte in a tuple is printed as its number.
byte_printed : to_string_tuple (string (codes "a") ∷ uint8 65 ∷ []) ≡ codes "a 65"
unfolding to_string_tuple digits
byte_printed = refl

numbers_read_back_example :
    (body : Text) × (to_string_vector decimal (7 ∷ 120 ∷ []) ≡ codes "[" ++ (body ++ codes "]"))
    × (to_string_set decimal (7 ∷ 120 ∷ []) ≡ codes "[" ++ (body ++ codes "]"))
    × (map (read_digits 0) (split 44 body) ≡ 7 ∷ 120 ∷ [])
numbers_read_back_example = numbers_read_back 7 (120 ∷ [])

abbrev word : Text
word = codes "ab"

map_printed :
    to_string_map to_string_string to_string_arithmetic ((word, pos 30) ∷ (word, negsuc 0) ∷ [])
    ≡ codes "{ab->30,ab->-1}"
unfolding to_string_map digits
map_printed = refl

abbrev account : AccountInfo
account = record {
  flag = true;
  name = word;
  address = (word, pos 3) ∷ [];
  num = none;
  msec = pos 500;
  tuple = (word, 65);
  map_tuple = [];
}

account_printed :
    to_string_account_info account
    ≡ codes
        "AccountInfo name=ab address={ab->3} num=(nullopt) msec=500 tuple=ab 65 map_tuple={} flag=true"
unfolding to_string_account_info to_string_map to_string_tuple to_string_optional digits
account_printed = refl

-- A double is written as its text.
abbrev config : Config Text
config = record {
  ch = pos 97;
  price = codes "1.500000";
  count = negsuc 4;
  content = word;
  map = [];
  account_info = account;
  vec = word ∷ [];
  set_vec = 5 ∷ [];
  account_type = Company;
}

abbrev from_yaml : Text → Option (Config Text) × Text
from_yaml file = (some config, [])

abbrev to_yaml : Config Text → Option Text × Text
to_yaml cfg = (some (codes "yaml"), [])
