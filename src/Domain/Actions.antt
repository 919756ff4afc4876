-- ===== src/Domain/Actions.antt =====
-- Methods of a mutable object: the state goes through, and an exception leaves behind what was written before it.
use attention_sink.Prelude.{Bool}
use attention_sink.Domain.Errors.{Error, Result, ok, raise, require}

-- A call that reads and writes a state. What was written stays when it raises.
abbrev pub Action : Type 0 → Type 0 → Type 0
Action D A = D → Result A × D

module _ {D : Type 0} where
  abbrev pub pure : {A : Type 0} → A → Action D A
  pure a d = (ok a, d)

  abbrev pub raising : {A : Type 0} → Error → Action D A
  raising e d = (raise e, d)

  abbrev pub gets : {A : Type 0} → (D → A) → Action D A
  gets f d = (ok (f d), d)

  abbrev pub modify : (D → D) → Action D (Unit {0})
  modify f d = (ok tt, f d)

  abbrev pub then_do : {A B : Type 0} → (A → Action D B) → Result A × D → Result B × D
  then_do rest (ok a, d) = rest a d
  then_do rest (raise e, d) = (raise e, d)

  -- A read that may raise.
  abbrev pub asks : {A : Type 0} → (D → Result A) → Action D A
  asks f d = (f d, d)

  -- `if not test: raise e`, on what the state holds
  abbrev pub ensure : (D → Bool) → Error → Action D (Unit {0})
  ensure test e d = (require (test d) e, d)

  abbrev pub lift : {A : Type 0} → Result A → Action D A
  lift r d = (r, d)

infixl 5 ◌>>=◌ ◌>>◌
abbrev pub ◌>>=◌ : {D A B : Type 0} → Action D A → (A → Action D B) → Action D B
◌>>=◌ first rest d = then_do rest (first d)

abbrev pub ◌>>◌ : {D B : Type 0} → Action D (Unit {0}) → Action D B → Action D B
first >> second = first >>= λ done. second
