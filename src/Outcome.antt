-- ===== src/Outcome.antt =====
-- What a Go call comes to: it returns a value, returns a non-nil error, or panics at run time.
use kafka_minion.Prelude.{◌≡◌, refl}

pub data Outcome (E A : Type 0) : Type 0 where
  ok : A → Outcome E A
  err : E → Outcome E A
  panic : Outcome E A

module _ {E A B : Type 0} where
  infixl 5 ◌>>=◌
  -- `x, err := m; if err != nil { return nil, err }`, and a panic goes up.
  abbrev pub ◌>>=◌ : Outcome E A → (A → Outcome E B) → Outcome E B
  panic >>= next = panic
  err e >>= next = err e
  ok got >>= next = next got

  -- If a chain returns, so did its first call.
  pub bind-eq-ok :
      (first : Outcome E A) (next : A → Outcome E B) {last : B}
      → (first >>= next) ≡ ok last
      → (got : A) × (first ≡ ok got) × (next got ≡ ok last)
  bind-eq-ok (err _) next h = cc
  bind-eq-ok panic next h = cc
  bind-eq-ok (ok got) next h = (got, refl, h)

module _ {E F A : Type 0} where
  -- `return nil, fmt.Errorf("…: %v", err)`: the error says where the step failed.
  abbrev pub at_field : (E → F) → Outcome E A → Outcome F A
  at_field wrap (ok a) = ok a
  at_field wrap (err e) = err (wrap e)
  at_field wrap panic = panic
