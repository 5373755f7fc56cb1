-- ===== src/Exec.antt =====
-- Code that changes the state outside and may return a Go error. What was written before the error
-- stays written, so the state comes back in both cases.
pub data Result (E A : Type 0) : Type 0 where
  ok : A → Result E A
  err : E → Result E A

abbrev pub Exec : Type 0 → Type 0 → Type 0 → Type 0
Exec W E A = W → Result E A × W

module _ {W E A : Type 0} where
  pub pure : A → Exec W E A
  pure a w = (ok a, w)

  -- `return …, err`
  pub raise : E → Exec W E A
  raise e w = (err e, w)

  -- `x, err := m`, with the error looked at by the code that follows
  pub try : Exec W E A → Exec W E (Result E A)
  try m w = let (r, w') = m w in (ok r, w')

  -- a call that returns no error
  pub total : (W → A × W) → Exec W E A
  total f w = let (a, w') = f w in (ok a, w')

  -- a function that may fail and reads nothing outside
  pub lift : Result E A → Exec W E A
  lift r w = (r, w)

module _ {W E : Type 0} where
  pub effect : (W → W) → Exec W E (Unit {0})
  effect f w = (ok tt, f w)

module _ {W E A B : Type 0} where
  abbrev continue : Result E A → (A → Exec W E B) → Exec W E B
  continue (ok a) f w = f a w
  continue (err e) f w = (err e, w)

  infixl 5 ◌>>=◌ ◌>>◌
  -- `if err != nil { return …, err }` between the two. Opening this opens the rest of the file.
  unfoldable pub ◌>>=◌ : Exec W E A → (A → Exec W E B) → Exec W E B
  unfolding pure raise try total lift effect
  ◌>>=◌ m f w = let (r, w') = m w in continue r f w'

  abbrev pub ◌>>◌ : Exec W E A → Exec W E B → Exec W E B
  m >> n = m >>= λ _. n
