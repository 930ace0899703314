-- ===== src/Yaml/ReadBack.antt =====
-- src/test_yaml_cpp_struct.cpp: printed vectors and sets, read back at their commas.
use example.Base.{
  ℕ, ◌≡◌, ◌≢◌, List, [], ◌∷◌, ◌++◌, Text, All, arith, ◌∙◌, ap, refl, map, codes, if◌then◌else◌,
  ◌==◌,
}
use example.Yaml.{decimal, to_string_vector, to_string_set}
use example.Yaml.Decimal.{read_digits, decimal_read, Digit, decimal-Digit}
use example.Yaml.Joined.{behind, join, brackets_lem}

-- The texts between separators.
abbrev pub onto : ℕ → List Text → List Text
onto c [] = (c ∷ []) ∷ []
onto c (t ∷ ts) = (c ∷ t) ∷ ts

unfoldable pub split : ℕ → Text → List Text
split sep [] = [] ∷ []
split sep (c ∷ cs) = let rest = split sep cs in if c == sep then [] ∷ rest else onto c rest

abbrev pub Without : ℕ → Text → Type 0
Without sep = All (λ c. c ≢ sep)

split-append :
    (sep : ℕ) (t rest : Text) (us : List Text)
    → Without sep t
    → split sep rest ≡ [] ∷ us
    → split sep (t ++ rest) ≡ t ∷ us
unfolding split
split-append sep [] rest us h e = e
split-append sep (c ∷ t) rest us h e = ground (arith, h.0, split-append sep t rest us h.1 e)

split-behind :
    (sep : ℕ) (ts : List Text) → All (Without sep) ts → split sep (behind (sep ∷ []) ts) ≡ [] ∷ ts
unfolding split
split-behind sep [] h = refl
split-behind sep (t ∷ ts) h =
    ground (arith, split-append sep t (behind (sep ∷ []) ts) ts h.0 (split-behind sep ts h.1))

pub split-join :
    (sep : ℕ) (t : Text) (ts : List Text)
    → All (Without sep) (t ∷ ts)
    → split sep (join (sep ∷ []) (t ∷ ts)) ≡ t ∷ ts
split-join sep t ts h = split-append sep t (behind (sep ∷ []) ts) ts h.0 (split-behind sep ts h.1)

module _ {ℓ} {T : Type ℓ} (f : T → Text) where
  -- Where no item's text has a comma, the text between the brackets of a printed vector or set that
  -- is not empty splits at its commas into the texts of the items, in their order.
  pub items_read_back :
      (x : T) (xs : List T)
      → All (Without 44) (map f (x ∷ xs))
      → (body : Text) × (to_string_vector f (x ∷ xs) ≡ codes "[" ++ (body ++ codes "]"))
        × (to_string_set f (x ∷ xs) ≡ codes "[" ++ (body ++ codes "]"))
        × (split 44 body ≡ map f (x ∷ xs))
  items_read_back x xs h = (
    join (codes ",") (map f (x ∷ xs)),
    (brackets_lem f (x ∷ xs)).0,
    (brackets_lem f (x ∷ xs)).1,
    split-join 44 (f x) (map f xs) h,
  )

digits-Without : (t : Text) → All Digit t → Without 44 t
digits-Without [] h = tt
digits-Without (c ∷ t) h = (λ e. omega (arith, h.0, e), digits-Without t h.1)

numbers-Without : (ns : List ℕ) → All (Without 44) (map decimal ns)
numbers-Without [] = tt
numbers-Without (n ∷ ns) = (digits-Without (decimal n) (decimal-Digit n), numbers-Without ns)

numbers_read : (ns : List ℕ) → map (read_digits 0) (map decimal ns) ≡ ns
numbers_read [] = refl
numbers_read (n ∷ ns) = rw (decimal_read n, numbers_read ns)

-- A printed vector or set of unsigned numbers that is not empty reads back as those numbers, in their
-- order.
pub numbers_read_back :
    (n : ℕ) (ns : List ℕ)
    → (body : Text) × (to_string_vector decimal (n ∷ ns) ≡ codes "[" ++ (body ++ codes "]"))
      × (to_string_set decimal (n ∷ ns) ≡ codes "[" ++ (body ++ codes "]"))
      × (map (read_digits 0) (split 44 body) ≡ n ∷ ns)
numbers_read_back n ns =
    let (body, vector, set, pieces) = items_read_back decimal n ns (numbers-Without (n ∷ ns)) in
    (body, vector, set, ap (map (read_digits 0)) pieces ∙ numbers_read (n ∷ ns))
