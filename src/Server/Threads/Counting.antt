-- ===== src/Server/Threads/Counting.antt =====
-- Sums over the threads.
use example.Base.{
  refl, ℕ, zero, suc, ◌+◌, ◌≤◌, ◌<◌, ◌≡◌, ◌≢◌, arith, ◌==◌, ==_iff, Bool-cases, inl, inr,
}
use example.Server.{update}
use example.Server.Threads.{Pc}

-- The sum of f over the first n threads.
pub total : (Pc → ℕ) → ℕ → (ℕ → Pc) → ℕ
total f zero pc = 0
total f (suc n) pc = total f n pc + f (pc n)

total-update_above :
    (f : Pc → ℕ) (n : ℕ) (pc : ℕ → Pc) (i : ℕ) (p : Pc)
    → n ≤ i
    → total f n (update pc i p) ≡ total f n pc
unfolding total
total-update_above f zero pc i p h = omega arith
total-update_above f (suc n) pc i p h = ground (arith, total-update_above f n pc i p)

pub total-update :
    (f : Pc → ℕ) (n : ℕ) (pc : ℕ → Pc) (i : ℕ) (p : Pc)
    → i < n
    → total f n (update pc i p) + f (pc i) ≡ total f n pc + f p
unfolding total
total-update f zero pc i p h = elim h [ ]
total-update f (suc n) pc i p h =
    ground (arith, total-update f n pc i p, total-update_above f n pc i p)

pub total-ge : (f : Pc → ℕ) (n : ℕ) (pc : ℕ → Pc) (i : ℕ) → i < n → f (pc i) ≤ total f n pc
unfolding total
total-ge f zero pc i h = elim h [ ]
total-ge f (suc n) pc i h = ground (arith, total-ge f n pc i)

pub total-ge_two :
    (f : Pc → ℕ) (n : ℕ) (pc : ℕ → Pc) (i j : ℕ)
    → i < n
    → j < n
    → i ≢ j
    → f (pc i) + f (pc j) ≤ total f n pc
unfolding total
total-ge_two f zero pc i j h k d = elim h [ ]
total-ge_two f (suc n) pc i j h k d =
    ground (arith, total-ge f n pc i, total-ge f n pc j, total-ge_two f n pc i j)

pub total-zero :
    (f : Pc → ℕ) (n : ℕ) (pc : ℕ → Pc) → ((i : ℕ) → i < n → f (pc i) ≡ 0) → total f n pc ≡ 0
unfolding total
total-zero f zero pc h = refl
total-zero f (suc n) pc h =
    omega (arith, h n (omega arith), total-zero f n pc (λ i lt. h i (omega arith)))

pub total-one : (f : Pc → ℕ) (n : ℕ) (p : Pc) → f p ≡ 1 → total f n (λ _. p) ≡ n
unfolding total
total-one f zero p h = refl
total-one f (suc n) p h = omega (arith, total-one f n p h)

-- A sum that is not zero has a thread that adds to it.
pub total-pos :
    (f : Pc → ℕ) (n : ℕ) (pc : ℕ → Pc) → 0 < total f n pc → (i : ℕ) × (i < n) × (0 < f (pc i))
unfolding total
total-pos f zero pc h = absurd (omega (arith, h))
total-pos f (suc n) pc h =
    elim (f (pc n)) as (λ k. f (pc n) ≡ k → (i : ℕ) × (i < suc n) × (0 < f (pc i))) [
      | zero ↦ λ e. let (i, lt, q) = total-pos f n pc (omega (arith, h, e)) in (i, omega arith, q)
      | suc k ↦ λ e. (n, omega arith, omega (arith, e))
    ]
      refl

total-same :
    (f g : Pc → ℕ) (n : ℕ) (pc : ℕ → Pc)
    → ((j : ℕ) → j < n → g (pc j) ≡ f (pc j))
    → total g n pc ≡ total f n pc
unfolding total
total-same f g zero pc h = refl
total-same f g (suc n) pc h =
    omega (arith, h n (omega arith), total-same f g n pc (λ j lt. h j (omega arith)))

-- Two weights that differ at thread i only.
pub total-differ :
    (f g : Pc → ℕ) (n : ℕ) (pc : ℕ → Pc) (i : ℕ)
    → i < n
    → ((j : ℕ) → j < n → j ≢ i → g (pc j) ≡ f (pc j))
    → total g n pc + f (pc i) ≡ total f n pc + g (pc i)
unfolding total
total-differ f g zero pc i lt h = elim lt [ ]
total-differ f g (suc n) pc i lt h = elim (Bool-cases (n == i)) [
  | inl same ↦
      let e = (==_iff n i).0 same in
      let rest = total-same f g n pc (λ j k. h j (omega arith) (λ q. omega (arith, k, q, e))) in
      rw (← e) (omega (arith, rest))
  | inr differs ↦ omega (
    arith,
    h n (omega arith) (λ q. ground (arith, q, differs)),
    total-differ f g n pc i (ground (arith, differs)) (λ j k. h j (omega arith)),
  )
]
