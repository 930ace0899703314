-- ===== src/Proto.antt =====
-- src/helloworld.pb.cc and include/helloworld.pb.h: the messages HelloRequest and HelloReply. protoc
-- generates the same code for both but for the names of the class and of its one field, `name` and
-- `message`. Bytes are numbers; addresses name messages in a store.
pub mod Wire
pub mod Copying
pub mod Parsing
pub mod Bytes
pub mod Accessors
mod Tests
use example.Base.{
  ℕ, zero, suc, ◌+◌, ◌/◌, ◌%◌, ◌≡◌, Bool, true, false, not, ◌||◌, Option, none, some, List, [], ◌∷◌,
  ◌++◌, ◌==◌, if◌then◌else◌, length, Text,
}

-- What the generated code calls of the protobuf runtime; U is `UnknownFieldSet`. `none` is a null
-- pointer. `verify_utf8` is the check of the field, which each class calls with the field's own name.
pub record Protobuf (U : Type 0) : Type 0 where
  pub read_tag : Text → Option (ℕ × Text)
  pub inline_greedy_string_parser : Text → Option (Text × Text)
  pub verify_utf8 : Text → Bool
  pub unknown_field_parse : ℕ → U → Text → Option (U × Text)
  pub write_string : ℕ → Text → Text
  pub serialize_unknown_fields : U → Text
  pub have_unknown_fields : U → Bool
  pub string_size : Text → ℕ
  pub unknown_fields_size : U → ℕ
  pub no_unknown_fields : U
  pub merge_unknown_fields : U → U → U

-- A message; `text` is its one field.
pub record Message (U : Type 0) : Type 0 where
  pub text : Text
  pub unknown_fields : U

abbrev pub HelloRequest : Type 0 → Type 0
HelloRequest = Message

abbrev pub HelloReply : Type 0 → Type 0
HelloReply = Message

abbrev pub empty : Text → Bool
empty [] = true
empty (c ∷ cs) = false

module _ {U : Type 0} (protobuf : Protobuf U) where
  -- `SharedCtor`.
  abbrev pub shared_ctor : Message U
  shared_ctor = record { text = []; unknown_fields = protobuf.no_unknown_fields }

  unfoldable pub clear : Message U → Message U
  clear this = record this { text = []; unknown_fields = protobuf.no_unknown_fields }

  unfoldable pub merge_from : Message U → Message U → Message U
  merge_from this from = record {
    text = if not (empty from.text) then from.text else this.text;
    unknown_fields = protobuf.merge_unknown_fields this.unknown_fields from.unknown_fields;
  }

  -- The copy constructor.
  unfoldable pub copy_ctor : Message U → Message U
  copy_ctor from = record {
    text = if not (empty from.text) then from.text else [];
    unknown_fields = protobuf.merge_unknown_fields protobuf.no_unknown_fields from.unknown_fields;
  }

  abbrev pub store_at : (ℕ → Message U) → ℕ → Message U → ℕ → Message U
  store_at store this m a = if a == this then m else store a

  unfoldable pub copy_from : ℕ → ℕ → (ℕ → Message U) → ℕ → Message U
  unfolding clear merge_from
  copy_from this from store =
      if from == this
      then store
      else let cleared = store_at store this (clear (store this)) in
        store_at cleared this (merge_from (cleared this) (cleared from))

  unfoldable pub internal_swap : ℕ → ℕ → (ℕ → Message U) → ℕ → Message U
  internal_swap this other store = store_at (store_at store this (store other)) other (store this)

  -- Whether two messages have the same owning arena, or none.
  abbrev pub same_arena : Option ℕ → Option ℕ → Bool
  same_arena none none = true
  same_arena none (some b) = false
  same_arena (some a) none = false
  same_arena (some a) (some b) = a == b

  -- The move assignment, for the arena that owns each message.
  unfoldable pub move_assign : (ℕ → Option ℕ) → ℕ → ℕ → (ℕ → Message U) → ℕ → Message U
  unfolding copy_from internal_swap
  move_assign owning_arena this from store =
      if this == from
      then store
      else if same_arena (owning_arena this) (owning_arena from)
      then internal_swap this from store
      else copy_from this from store

  -- `Swap`; `GenericSwap` is the runtime's.
  unfoldable pub swap :
      (ℕ → ℕ → (ℕ → Message U) → ℕ → Message U)
      → (ℕ → Option ℕ)
      → ℕ
      → ℕ
      → (ℕ → Message U)
      → ℕ
      → Message U
  unfolding internal_swap
  swap generic_swap owning_arena this other store =
      if other == this
      then store
      else if same_arena (owning_arena this) (owning_arena other)
      then internal_swap this other store
      else generic_swap this other store

  -- `UnsafeArenaSwap`; `none` is its check, which fails in a debug build.
  unfoldable pub unsafe_arena_swap :
      (ℕ → Option ℕ) → ℕ → ℕ → (ℕ → Message U) → Option (ℕ → Message U)
  unfolding internal_swap
  unsafe_arena_swap owning_arena this other store =
      if other == this
      then some store
      else if same_arena (owning_arena this) (owning_arena other)
      then some (internal_swap this other store)
      else none

  -- `set_name` and `set_message`.
  abbrev pub set_text : Text → Message U → Message U
  set_text value this = record this { text = value }

  unfoldable pub internal_serialize : Message U → Text
  internal_serialize this =
      (if not (empty this.text) then protobuf.write_string 1 this.text else [])
      ++ (if protobuf.have_unknown_fields this.unknown_fields
          then protobuf.serialize_unknown_fields this.unknown_fields
          else [])

  unfoldable pub byte_size_long : Message U → ℕ
  byte_size_long this =
      (if not (empty this.text) then 1 + protobuf.string_size this.text else 0)
      + (if protobuf.have_unknown_fields this.unknown_fields
          then protobuf.unknown_fields_size this.unknown_fields
          else 0)

  -- How `_InternalParse` ends: with the message, the last tag that it set and the bytes left, or with
  -- a null pointer; `out_of_fuel` is a loop that is still going.
  pub data Parsed : Type 0 where
    parsed : Message U → Option ℕ → Text → Parsed
    failure : Parsed
    out_of_fuel : Parsed

  -- `str` in the case of field 1: parsed, verified and checked.
  abbrev pub checked_string : Text → Option (Text × Text)
  checked_string ptr = elim (protobuf.inline_greedy_string_parser ptr) [
    | none ↦ none
    | some r ↦ if protobuf.verify_utf8 r.0 then some r else none
  ]

  -- Whether the tag is that of the field: the switch, and the test within its case.
  abbrev pub is_field_tag : ℕ → Bool
  is_field_tag tag = if (tag / 8) == 1 then (tag % 256) == 10 else false

  unfoldable pub internal_parse : ℕ → Message U → Text → Parsed
  internal_parse fuel this [] = parsed this none []
  internal_parse zero this (b ∷ bytes) = out_of_fuel
  internal_parse (suc fuel) this (b ∷ bytes) = elim (protobuf.read_tag (b ∷ bytes)) [
    | none ↦ failure
    | some tagged ↦
        let tag = tagged.0 in
        let ptr = tagged.1 in
        elim (is_field_tag tag) [
          | true ↦ elim (checked_string ptr) [
            | none ↦ failure
            | some r ↦ internal_parse fuel (record this { text = r.0 }) r.1
          ]
          | false ↦ elim (tag == 0 || (tag % 8) == 4) [
            | true ↦ parsed this (some tag) ptr
            | false ↦ elim (protobuf.unknown_field_parse tag this.unknown_fields ptr) [
              | none ↦ failure
              | some u ↦ internal_parse fuel (record this { unknown_fields = u.0 }) u.1
            ]
          ]
        ]
  ]
