-- ===== src/Drogon/Direction.antt =====
-- src/test_drogon.cpp: one direction of the web socket, whose frames are logged as they arrive.
use example.Base.{
  ℕ, zero, suc, ◌≡◌, refl, ap, Bool, true, false, List, [], ◌∷◌, ◌++◌, ◌⊎◌, inl, inr, if◌then◌else◌,
}
use example.Asio.{Line}

abbrev pub repeat : {A : Type 0} → ℕ → A → List A
repeat zero a = []
repeat (suc n) a = a ∷ repeat n a

repeat_snoc : {A : Type 0} (n : ℕ) (a : A) → repeat n a ++ (a ∷ []) ≡ repeat (suc n) a
repeat_snoc zero a = refl
repeat_snoc (suc n) a = ap (◌∷◌ a) (repeat_snoc n a)

-- One direction: the first frame is still on its way and nothing of it is logged, or it has arrived
-- and j of the frames behind it.
abbrev pub Side : {A : Type 0} → A → A → Line → Line → List A → List Line → Bool → Type 0
Side first later first_line later_line queue body heard =
    ((k : ℕ) × (queue ≡ first ∷ repeat k later) × (body ≡ []) × (heard ≡ false))
    ⊎ ((k : ℕ) × (j : ℕ) × (queue ≡ repeat k later)
        × (body ≡ first_line ∷ repeat j later_line)
        × (heard ≡ true))

module _ {A : Type 0} (first later : A) (first_line later_line : Line) where
  -- A frame arrives and is logged.
  pub Side-arrives :
      (queue rest : List A) (f : A) (body : List Line) (heard : Bool) (line : A → List Line)
      → line first ≡ first_line ∷ []
      → line later ≡ later_line ∷ []
      → Side first later first_line later_line queue body heard
      → queue ≡ f ∷ rest
      → ((f ≡ first) ⊎ (f ≡ later))
        × Side first later first_line later_line rest (body ++ line f) true
  Side-arrives queue rest f body heard line e₁ e₂ (inl (k, q, b, h)) e =
      let fe : f ≡ first = cc in
      let re : rest ≡ repeat k later = cc in (inl fe, inr (k, 0, re, rw (b, fe, e₁) refl, refl))
  Side-arrives queue rest f body heard line e₁ e₂ (inr (zero, j, q, b, h)) e = absurd (cc)
  Side-arrives queue rest f body heard line e₁ e₂ (inr (suc k, j, q, b, h)) e =
      let fe : f ≡ later = cc in
      let re : rest ≡ repeat k later = cc in
      (
        inr fe,
        inr (k, suc j, re, rw (b, fe, e₂) (ap (◌∷◌ first_line) (repeat_snoc j later_line)), refl),
      )

  -- A frame is sent behind the others.
  pub Side-sends :
      (queue : List A) (body : List Line) (heard : Bool)
      → Side first later first_line later_line queue body heard
      → Side first later first_line later_line (queue ++ (later ∷ [])) body heard
  Side-sends queue body heard (inl (k, q, b, h)) =
      inl (suc k, rw q (ap (◌∷◌ first) (repeat_snoc k later)), b, h)
  Side-sends queue body heard (inr (k, j, q, b, h)) =
      inr (suc k, j, rw q (repeat_snoc k later), b, h)

-- What a side has logged of the frames that arrived.
pub heard_of :
    {A : Type 0} (first later : A) (first_line later_line : Line) (queue : List A)
    (body : List Line) (heard : Bool)
    → Side first later first_line later_line queue body heard
    → (j : ℕ) × (body ≡ (if heard then first_line ∷ repeat j later_line else []))
heard_of first later first_line later_line queue body heard (inl (k, q, b, h)) = (0, rw (b, h) refl)
heard_of first later first_line later_line queue body heard (inr (k, j, q, b, h)) =
    (j, rw (b, h) refl)
