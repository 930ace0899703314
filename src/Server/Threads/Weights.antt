-- ===== src/Server/Threads/Weights.antt =====
-- Texts that weigh the same whatever their weights are the same texts, up to order.
use mathlib.Core.List.{Perm}
use mathlib.Core.List.Perm
use example.Base.{
  ℕ, ◌+◌, ◌<◌, ◌≡◌, refl, sym, true, Bool-cases, inl, inr, if◌then◌else◌, List, [], ◌∷◌, arith,
  Text, eq_text,
}
use example.Server.Threads.History.{sum}

eq_text_self : (t : Text) → eq_text t t ≡ true
eq_text_self [] = refl
eq_text_self (c ∷ t) = ground (arith, eq_text_self t)

eq_text-same : (s t : Text) → eq_text s t ≡ true → s ≡ t
eq_text-same [] [] e = refl
eq_text-same [] (d ∷ t) e = absurd (cc)
eq_text-same (c ∷ s) [] e = absurd (cc)
eq_text-same (c ∷ s) (d ∷ t) e = ground (arith, e, eq_text-same s t)

-- The weight that counts one text.
abbrev counting : Text → Text → ℕ
counting x t = if eq_text x t then 1 else 0

-- A list that has a text is that text and the rest, up to order.
taken_out :
    (x : Text) (l : List Text)
    → 0 < sum (counting x) l
    → (rest : List Text) × Perm l (x ∷ rest) × ((f : Text → ℕ) → sum f l ≡ f x + sum f rest)
taken_out x [] has = elim has [ ]
taken_out x (t ∷ l) has = elim (Bool-cases (eq_text x t)) [
  | inl same ↦ let e = eq_text-same x t same in (l, rw e Perm.rfl, λ f. rw e refl)
  | inr apart ↦
      let (rest, perm, weigh) = taken_out x l (ground (arith, has, apart)) in
      (t ∷ rest, Perm.trans (Perm.cons t perm) (Perm.swap x t rest), λ f. omega (arith, weigh f))
]

nothing_there : (l : List Text) → sum (λ _. 1) l ≡ 0 → l ≡ []
nothing_there [] e = refl
nothing_there (t ∷ l) e = absurd (omega (arith, e))

pub same_weights : (xs ys : List Text) → ((f : Text → ℕ) → sum f xs ≡ sum f ys) → Perm xs ys
same_weights [] ys h = rw (nothing_there ys (sym (h (λ _. 1)))) Perm.rfl
same_weights (x ∷ xs) ys h =
    let has : 0 < sum (counting x) ys = ground (arith, h (counting x), eq_text_self x) in
    let (rest, perm, weigh) = taken_out x ys has in
    Perm.trans (Perm.cons x (same_weights xs rest (λ f. omega (arith, h f, weigh f))))
      (Perm.symm perm)
