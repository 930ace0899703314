-- ===== src/Proto/Tests.antt =====
-- The message theorems, applied to a runtime whose numbers are all of one byte.
use example.Base.{
  ℕ, suc, ◌≡◌, refl, Option, none, some, [], ◌∷◌, if◌then◌else◌, ◌==◌, length, Text, codes, arith,
  zero,
}
use example.Base.Slices.{drop}
use example.Proto.{
  Message, shared_ctor, internal_serialize, internal_parse, parsed, copy_from, copy_ctor,
  move_assign, swap,
}
use example.Proto.Bytes.{read_first, read_string, bytes_runtime, bytes_wire}
use example.Proto.Wire.{parse-serialize}
use example.Proto.Parsing.{Consumes, parse_ends}
use example.Base.{◌<◌, ◌≤◌, ◌≢◌}
use example.Proto.{out_of_fuel}
use example.Proto.Copying.{exchanged, copies_lem}

abbrev world : Message Text
world = record { text = codes "world"; unknown_fields = [] }

parse-serialize_example :
    internal_parse bytes_runtime 1
      (shared_ctor bytes_runtime)
      (internal_serialize bytes_runtime world)
    ≡ parsed world none []
parse-serialize_example = parse-serialize bytes_runtime bytes_wire world 0 refl refl refl

-- The message that each address holds.
abbrev messages : ℕ → Message Text
messages a = if a == 1 then world else shared_ctor bytes_runtime

-- Message 1 is on an arena.
abbrev arenas : ℕ → Option ℕ
arenas a = if a == 1 then some 0 else none

abbrev by_exchange : ℕ → ℕ → (ℕ → Message Text) → ℕ → Message Text
by_exchange this other store a = store (exchanged this other a)

copies_lem_example :
    (copy_from bytes_runtime 2 1 messages 2 ≡ messages 1)
    × (copy_from bytes_runtime 2 1 messages 3 ≡ messages 3)
    × (copy_ctor bytes_runtime (messages 1) ≡ messages 1)
    × (move_assign bytes_runtime arenas 2 1 messages 2 ≡ messages 1)
    × ((a : ℕ) → swap bytes_runtime by_exchange arenas 2 1 messages a ≡ messages (exchanged 2 1 a))
copies_lem_example =
    copies_lem bytes_runtime (λ u. refl) by_exchange arenas 2 1 3 messages
      (λ this other store a. refl) (λ e. omega (arith, e))

first_shortens :
    (bytes : Text) (r : ℕ × Text) → read_first bytes ≡ some r → length r.1 < length bytes
first_shortens [] r h = absurd (cc)
first_shortens (b ∷ bytes) r h = ground (arith, h)

length-drop_le : (n : ℕ) (bytes : Text) → length (drop n bytes) ≤ length bytes
length-drop_le zero bytes = omega arith
length-drop_le (suc n) [] = omega arith
length-drop_le (suc n) (b ∷ bytes) = omega (arith, length-drop_le n bytes)

string_fits :
    (bytes : Text) (r : Text × Text) → read_string bytes ≡ some r → length r.1 ≤ length bytes
string_fits [] r h = absurd (cc)
string_fits (n ∷ bytes) r h = ground (arith, h, length-drop_le n bytes)

abbrev bytes_consumes : Consumes bytes_runtime
bytes_consumes = record {
  tag_shortens = first_shortens;
  string_fits = string_fits;
  unknown_fits = λ tag u bytes r h. absurd (cc);
}

-- A text that is cut off: the parser ends with a null pointer.
abbrev cut_off : Text
cut_off = 10 ∷ 5 ∷ 119 ∷ []

parse_ends_example :
    internal_parse bytes_runtime 3 (shared_ctor bytes_runtime) cut_off ≢ out_of_fuel
parse_ends_example =
    parse_ends bytes_runtime bytes_consumes 3 (shared_ctor bytes_runtime) cut_off (omega arith)
