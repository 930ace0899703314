-- ===== src/Yaml/Joined.antt =====
-- src/test_yaml_cpp_struct.cpp: what the loops of `to_string` print, for each kind of container and of value.
use example.Base.{
  ◌≡◌, List, [], ◌∷◌, ◌++◌, Text, sym, ◌∙◌, refl, append-nil, append_assoc, map, codes,
}
use example.Yaml.{
  Value, int8, uint8, int32, string, func, stream, decimal, fold_values, to_string, to_string_tuple,
  to_string_arithmetic, items_loop, entries_loop, to_string_vector, to_string_set, to_string_map,
}

-- Texts with a separator between each two.
abbrev pub behind : Text → List Text → Text
behind sep [] = []
behind sep (t ∷ ts) = sep ++ (t ++ behind sep ts)

abbrev pub join : Text → List Text → Text
join sep [] = []
join sep (t ∷ ts) = t ++ behind sep ts

module _ {ℓ} {T : Type ℓ} (f : T → Text) where
  items_loop_lem :
      (str : Text) (xs : List T) → items_loop f str xs ≡ str ++ behind (codes ",") (map f xs)
  unfolding items_loop
  items_loop_lem str [] = sym (append-nil str)
  items_loop_lem str (x ∷ xs) = items_loop_lem ((str ++ codes ",") ++ f x) xs ∙ simp append_assoc

  -- A vector and a set are printed as their items with commas between them, in brackets.
  pub brackets_lem :
      (xs : List T)
      → (to_string_vector f xs ≡ codes "[" ++ (join (codes ",") (map f xs) ++ codes "]"))
        × (to_string_set f xs ≡ codes "[" ++ (join (codes ",") (map f xs) ++ codes "]"))
  unfolding to_string_vector to_string_set
  brackets_lem [] = (refl, refl)
  brackets_lem (x ∷ xs) = rw (items_loop_lem (codes "[" ++ f x) xs, append_assoc) (refl, refl)

module _ {ℓ κ} {K : Type ℓ} {V : Type κ} (f : K → Text) (g : V → Text) where
  abbrev pub entry : K × V → Text
  entry (k, v) = f k ++ (codes "->" ++ g v)

  entries_loop_lem :
      (str : Text) (xs : List (K × V))
      → entries_loop f g str xs ≡ str ++ behind (codes ",") (map entry xs)
  unfolding entries_loop
  entries_loop_lem str [] = sym (append-nil str)
  entries_loop_lem str ((k, v) ∷ xs) =
      entries_loop_lem ((((str ++ codes ",") ++ f k) ++ codes "->") ++ g v) xs ∙ simp append_assoc

  -- A map is printed as its entries, each a key, an arrow and a value, with commas between them, in
  -- braces.
  pub braces_lem :
      (xs : List (K × V))
      → to_string_map f g xs ≡ codes "{" ++ (join (codes ",") (map entry xs) ++ codes "}")
  unfolding to_string_map
  braces_lem [] = refl
  braces_lem ((k, v) ∷ xs) =
      rw (entries_loop_lem (((codes "{" ++ f k) ++ codes "->") ++ g v) xs, append_assoc) simp
        append_assoc

-- What is meant for a value: the text itself, or the decimal number.
abbrev pub plain : Value → Text
plain (int8 n) = to_string_arithmetic n
plain (uint8 n) = decimal n
plain (int32 n) = to_string_arithmetic n
plain (string s) = s

stream-func : (t : Value) → stream (func t) ≡ plain t
stream-func (int8 n) = refl
stream-func (uint8 n) = refl
stream-func (int32 n) = refl
stream-func (string s) = refl

fold_values_lem :
    (ss : Text) (ts : List Value)
    → fold_values ss (codes " ") ts ≡ ss ++ behind (codes " ") (map plain ts)
unfolding fold_values
fold_values_lem ss [] = sym (append-nil ss)
fold_values_lem ss (t ∷ ts) =
    fold_values_lem (ss ++ (codes " " ++ stream (func t))) ts ∙ rw (stream-func t) simp append_assoc

-- The variadic `to_string`, and that of a tuple, put single spaces between their values and print
-- every integer, those of one byte too, as a decimal number and never as a character.
pub values_lem :
    (ts : List Value)
    → (to_string ts ≡ join (codes " ") (map plain ts))
      × (to_string_tuple ts ≡ join (codes " ") (map plain ts))
unfolding to_string to_string_tuple fold_values
values_lem [] = (refl, refl)
values_lem (t ∷ ts) =
    let printed = fold_values_lem (stream (func t)) ts ∙ rw (stream-func t) refl in
    (printed, printed)
