-- ===== src/Base/Lists.antt =====
-- Lists measured and indexed by native numbers, under the library's names.
use Prim.Native.Nat.{ℕ, zero, suc, ◌+◌, ◌*◌, ◌%◌, ◌≤◌, ◌<◌}
use mathlib.Core.Path.{◌≡◌, refl, sym, ap, ◌∙◌}
use mathlib.Core.List.{List, [], ◌∷◌, ◌++◌, map}
use mathlib.Core.Option.{Option, none, some}
use native.Mathlib.Omega.{arith}
use native.Mathlib.Nat.{
  zero-add, add-zero, suc-add, add-suc, mod-eq_of_lt, add-mod_right, zero-mul, suc-mul, add_comm,
  mod-add-mod, mod_self,
}
use native.Mathlib.Numerals.{add-one}
use mathlib.Core.Logic.{inl, inr}
use mathlib.Core.Bool.{true, false}
use example.Base.Tests.{◌==◌, if◌then◌else◌, ==_iff, Bool-cases}

module _ {ℓ} {A : Type ℓ} where
  abbrev pub length : List A → ℕ
  length [] = 0
  length (x ∷ xs) = suc (length xs)

  abbrev pub get_elem? : List A → ℕ → Option A
  get_elem? [] i = none
  get_elem? (x ∷ xs) zero = some x
  get_elem? (x ∷ xs) (suc i) = get_elem? xs i

  pub length-append : (xs ys : List A) → length (xs ++ ys) ≡ length xs + length ys
  length-append [] ys = omega arith
  length-append (x ∷ xs) ys = omega (arith, length-append xs ys)

  -- A read inside the list succeeds.
  pub get_elem?-lt : (xs : List A) (i : ℕ) → i < length xs → (a : A) × (get_elem? xs i ≡ some a)
  get_elem?-lt [] i h = elim h [ ]
  get_elem?-lt (x ∷ xs) zero h = (x, refl)
  get_elem?-lt (x ∷ xs) (suc i) h = get_elem?-lt xs i (omega arith)

  -- Every item satisfies the predicate.
  abbrev pub All {κ} : (A → Type κ) → List A → Type κ
  All P [] = Unit
  All P (x ∷ xs) = P x × All P xs

  pub All-append {κ} : (P : A → Type κ) (xs ys : List A) → All P xs → All P ys → All P (xs ++ ys)
  All-append P [] ys hx hy = hy
  All-append P (x ∷ xs) ys hx hy = (hx.0, All-append P xs ys hx.1 hy)

  pub All-get {κ} :
      (P : A → Type κ) (xs : List A) (i : ℕ) (a : A) → All P xs → get_elem? xs i ≡ some a → P a
  All-get P [] i a h e = absurd (cc)
  All-get P (x ∷ xs) zero a h e = ground (arith, h.0)
  All-get P (x ∷ xs) (suc i) a h e = All-get P xs i a h.1 e

module _ {ℓ κ} {A : Type ℓ} {B : Type κ} where
  pub length-map : (xs : List A) (f : A → B) → length (map f xs) ≡ length xs
  length-map [] f = refl
  length-map (x ∷ xs) f = ap suc (length-map xs f)

  pub get_elem?-map :
      (xs : List A) (f : A → B) (i : ℕ) (a : A)
      → get_elem? xs i ≡ some a
      → get_elem? (map f xs) i ≡ some (f a)
  get_elem?-map [] f i a h = absurd (cc)
  get_elem?-map (x ∷ xs) f zero a h = ground arith
  get_elem?-map (x ∷ xs) f (suc i) a h = get_elem?-map xs f i a h

-- The number of occurrences of a number in a list.
abbrev pub count : ℕ → List ℕ → ℕ
count a [] = 0
count a (x ∷ xs) = if a == x then suc (count a xs) else count a xs

pub count-append : (a : ℕ) (xs ys : List ℕ) → count a (xs ++ ys) ≡ count a xs + count a ys
count-append a [] ys = omega arith
count-append a (x ∷ xs) ys = ground (arith, count-append a xs ys)

-- n numbers from s on.
abbrev pub range_from : ℕ → ℕ → List ℕ
range_from s zero = []
range_from s (suc n) = s ∷ range_from (suc s) n

-- Each number of a range occurs in it once, and no other occurs.
pub count-range_from_below : (a s n : ℕ) → a < s → count a (range_from s n) ≡ 0
count-range_from_below a s zero h = refl
count-range_from_below a s (suc n) h = ground (arith, count-range_from_below a (suc s) n)

pub count-range_from : (a s n : ℕ) → s ≤ a → a < s + n → count a (range_from s n) ≡ 1
count-range_from a s zero h k = absurd (omega arith)
count-range_from a s (suc n) h k =
    ground (arith, count-range_from a (suc s) n, count-range_from_below a (suc s) n)

pub length-range_from : (s n : ℕ) → length (range_from s n) ≡ n
length-range_from s zero = refl
length-range_from s (suc n) = ap suc (length-range_from (suc s) n)

pub get_elem?-range_from : (s n i : ℕ) → i < n → get_elem? (range_from s n) i ≡ some (s + i)
get_elem?-range_from s zero i h = elim h [ ]
get_elem?-range_from s (suc n) zero h = ap some (omega arith)
get_elem?-range_from s (suc n) (suc i) h =
    get_elem?-range_from (suc s) n i (omega arith) ∙ ap some (omega arith)

-- The numbers s, s + 1, … read modulo n: the order in which a ring of n places is walked.
abbrev pub cycle : ℕ → ℕ → ℕ → List ℕ
cycle n s zero = []
cycle n s (suc k) = (s % n) ∷ cycle n (suc s) k

pub cycle-add : (n s j k : ℕ) → cycle n s (j + k) ≡ cycle n s j ++ cycle n (s + j) k
cycle-add n s zero k = rw (zero-add, add-zero)
cycle-add n s (suc j) k =
    rw (suc-add) (ap (◌∷◌ (s % n)) (cycle-add n (suc s) j k ∙ rw (suc-add, add-suc)))

-- The next place of a ring.
pub ring_next : (n s : ℕ) → 0 < n → (if (s % n + 1) == n then 0 else s % n + 1) ≡ suc s % n
ring_next n s h =
    let place : (s % n + 1) % n ≡ suc s % n = mod-add-mod s n 1 ∙ rw add-one refl in
    elim (Bool-cases (s % n + 1 == n)) [
      | inl last ↦ rw last (wrap last place)
      | inr more ↦ rw more (sym (mod-eq_of_lt (room more)) ∙ place)
    ]
  where
    below : s % n < n
    below = omega arith

    wrap : (s % n + 1 == n) ≡ true → (s % n + 1) % n ≡ suc s % n → 0 ≡ suc s % n
    wrap e q = sym (mod_self n) ∙ ap (λ (t : ℕ). t % n) (sym ((==_iff _ n).0 e)) ∙ q

    room : (s % n + 1 == n) ≡ false → s % n + 1 < n
    room e = ground (arith, below)

pub cycle-low : (n s k : ℕ) → s + k ≤ n → cycle n s k ≡ range_from s k
cycle-low n s zero h = refl
cycle-low n s (suc k) h =
    rw (mod-eq_of_lt {n = s} {m = n} (omega arith), cycle-low n (suc s) k (omega arith))

pub cycle_shift : (n s k : ℕ) → cycle n (s + n) k ≡ cycle n s k
cycle_shift n s zero = refl
cycle_shift n s (suc k) =
    rw (add-mod_right) (ap (◌∷◌ (s % n)) (rw (← suc-add) (cycle_shift n (suc s) k)))

-- m turns of a ring visit each place m times.
pub count-cycle : (n m i : ℕ) → i < n → count i (cycle n 0 (m * n)) ≡ m
count-cycle n zero i h = rw zero-mul
count-cycle n (suc m) i h =
    rw
      (
        suc-mul,
        add_comm (m * n) n,
        cycle-add,
        count-append,
        cycle_shift,
        cycle-low n 0 n (omega arith),
      )
      (omega (arith, count-cycle n m i h, count-range_from i 0 n (omega arith) (omega arith)))
