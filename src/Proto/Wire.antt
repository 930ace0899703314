-- ===== src/Proto/Wire.antt =====
-- src/helloworld.pb.cc: what `_InternalSerialize` writes, `_InternalParse` reads and `ByteSizeLong` counts.
use example.Base.{
  ℕ, suc, ◌+◌, ◌≡◌, refl, Bool, true, false, not, none, some, [], ◌∷◌, ◌++◌, if◌then◌else◌, length,
  length-append, Text, arith,
}
use example.Proto.{
  Protobuf, Message, shared_ctor, empty, internal_serialize, internal_parse, byte_size_long, parsed,
  failure,
}

-- What the generated code relies on of the wire format: a string field is a tag of one byte, 10 for
-- field 1, and a text that the string parser reads back; the sizes are those of what is written.
pub record WireFormat {U : Type 0} (protobuf : Protobuf U) : Type 0 where
  pub string_text : Text → Text
  pub write_string_lem : (s : Text) → protobuf.write_string 1 s ≡ 10 ∷ string_text s
  pub read_tag_lem : (rest : Text) → protobuf.read_tag (10 ∷ rest) ≡ some (10, rest)
  pub parser_lem :
      (s rest : Text)
      → protobuf.inline_greedy_string_parser (string_text s ++ rest) ≡ some (s, rest)
  pub string_size_lem : (s : Text) → protobuf.string_size s ≡ length (string_text s)
  pub unknown_fields_size_lem :
      (u : U) → protobuf.unknown_fields_size u ≡ length (protobuf.serialize_unknown_fields u)

module _ {U : Type 0} (protobuf : Protobuf U) (wire : WireFormat protobuf) where
  name_size :
      (s : Text)
      → (if not (empty s) then 1 + protobuf.string_size s else 0)
        ≡ length (if not (empty s) then protobuf.write_string 1 s else [])
  name_size [] = refl
  name_size (c ∷ cs) =
      rw (wire.write_string_lem (c ∷ cs), wire.string_size_lem (c ∷ cs)) omega arith

  unknown_size :
      (u : U) (have : Bool)
      → (if have then protobuf.unknown_fields_size u else 0)
        ≡ length (if have then protobuf.serialize_unknown_fields u else [])
  unknown_size u true = wire.unknown_fields_size_lem u
  unknown_size u false = refl

  -- `ByteSizeLong` is the number of bytes that `_InternalSerialize` writes, unknown fields included.
  pub byte_size_long_lem :
      (m : Message U) → byte_size_long protobuf m ≡ length (internal_serialize protobuf m)
  unfolding byte_size_long internal_serialize
  byte_size_long_lem m =
      rw
        (
          byte_size_long,
          name_size m.text,
          unknown_size m.unknown_fields (protobuf.have_unknown_fields m.unknown_fields),
          internal_serialize,
          length-append,
        )
        refl

  name_parsed :
      (name : Text) (fuel : ℕ)
      → protobuf.verify_utf8 name ≡ true
      → internal_parse protobuf
          (suc fuel)
          (shared_ctor protobuf)
          ((if not (empty name) then protobuf.write_string 1 name else []) ++ [])
        ≡ parsed (record { text = name; unknown_fields = protobuf.no_unknown_fields }) none []
  unfolding internal_parse
  name_parsed [] fuel valid = refl
  name_parsed (c ∷ cs) fuel valid =
      rw
        (
          wire.write_string_lem (c ∷ cs),
          internal_parse,
          wire.read_tag_lem (wire.string_text (c ∷ cs) ++ []),
          wire.parser_lem (c ∷ cs) [],
          valid,
        )
        refl

  -- A message without unknown fields and with a valid text is read back as it was written, to its last
  -- byte: one round is enough.
  pub parse-serialize :
      (m : Message U) (fuel : ℕ)
      → m.unknown_fields ≡ protobuf.no_unknown_fields
      → protobuf.have_unknown_fields protobuf.no_unknown_fields ≡ false
      → protobuf.verify_utf8 m.text ≡ true
      → internal_parse protobuf (suc fuel) (shared_ctor protobuf) (internal_serialize protobuf m)
        ≡ parsed m none []
  unfolding internal_parse internal_serialize
  parse-serialize m fuel known none_known valid =
      rw (internal_serialize, known, none_known) (name_parsed m.text fuel valid)

  -- A text that is not valid is written all the same, and refused when it is read.
  pub parse_refuses :
      (m : Message U) (c : ℕ) (cs : Text) (fuel : ℕ)
      → m.unknown_fields ≡ protobuf.no_unknown_fields
      → protobuf.have_unknown_fields protobuf.no_unknown_fields ≡ false
      → m.text ≡ c ∷ cs
      → protobuf.verify_utf8 (c ∷ cs) ≡ false
      → internal_parse protobuf (suc fuel) (shared_ctor protobuf) (internal_serialize protobuf m)
        ≡ failure
  unfolding internal_parse internal_serialize
  parse_refuses m c cs fuel known none_known text invalid =
      rw
        (
          internal_serialize,
          known,
          none_known,
          text,
          wire.write_string_lem (c ∷ cs),
          internal_parse,
          wire.read_tag_lem (wire.string_text (c ∷ cs) ++ []),
          wire.parser_lem (c ∷ cs) [],
          invalid,
        )
        refl
