-- ===== src/Proto/Bytes.antt =====
-- A runtime for tests, whose numbers are all of one byte.
use example.Base.{
  ℕ, suc, ◌+◌, ◌*◌, ◌≡◌, refl, Bool, true, false, not, Option, none, some, [], ◌∷◌, ◌++◌,
  if◌then◌else◌, length, length-append, Text, arith, leb, ltb,
}
use example.Base.Slices.{take, drop, take-length_append}
use example.Proto.{Protobuf, empty}
use example.Proto.Wire.{WireFormat}

drop-length_append : (xs ys : Text) → drop (length xs) (xs ++ ys) ≡ ys
drop-length_append [] ys = refl
drop-length_append (x ∷ xs) ys = drop-length_append xs ys

abbrev pub read_string : Text → Option (Text × Text)
read_string [] = none
read_string (n ∷ bytes) = if leb n (length bytes) then some (take n bytes, drop n bytes) else none

pub read_string_lem : (s rest : Text) → read_string (length s ∷ (s ++ rest)) ≡ some (s, rest)
read_string_lem s rest =
    let fits : leb (length s) (length (s ++ rest)) ≡ true = rw (length-append) ground arith in
    rw (fits, take-length_append s rest, drop-length_append s rest) refl

-- A text of ASCII characters only is valid.
abbrev pub ascii : Text → Bool
ascii [] = true
ascii (c ∷ cs) = if ltb c 128 then ascii cs else false

abbrev pub read_first : Text → Option (ℕ × Text)
read_first [] = none
read_first (b ∷ bytes) = some (b, bytes)

-- Unknown fields are kept as their bytes.
abbrev pub bytes_runtime : Protobuf Text
bytes_runtime = record {
  read_tag = read_first;
  inline_greedy_string_parser = read_string;
  verify_utf8 = ascii;
  unknown_field_parse = λ tag u ptr. none;
  write_string = λ field s. (field * 8 + 2) ∷ length s ∷ s;
  serialize_unknown_fields = λ u. u;
  have_unknown_fields = λ u. not (empty u);
  string_size = λ s. suc (length s);
  unknown_fields_size = λ u. length u;
  no_unknown_fields = [];
  merge_unknown_fields = λ u v. u ++ v;
}

abbrev pub bytes_wire : WireFormat bytes_runtime
bytes_wire = record {
  string_text = λ s. length s ∷ s;
  write_string_lem = λ s. refl;
  read_tag_lem = λ rest. refl;
  parser_lem = λ s rest. read_string_lem s rest;
  string_size_lem = λ s. refl;
  unknown_fields_size_lem = λ u. refl;
}
