-- ===== src/Base/Exec.antt =====
-- Calls that work on objects and may raise: a call takes the state of the objects and gives it back
-- beside what it returns or raises, so what it wrote before it raised is not lost.
use crypto_dual_sleeve_tradi.Base.{Bool, if◌then◌else◌}
use crypto_dual_sleeve_tradi.Base.Result.{Result, ok, err, Exception}

abbrev pub Exec : Type 0 → Type 0 → Type 0
Exec S A = S → Result A × S

module _ {S A : Type 0} where
  -- a value that is read off the objects
  abbrev pub gets : (S → A) → Exec S A
  gets read objects = (ok (read objects), objects)

  -- a call that does not touch them
  abbrev pub lift : Result A → Exec S A
  lift outcome objects = (outcome, objects)

  abbrev pub raise : Exception → Exec S A
  raise exc objects = (err exc, objects)

  abbrev pub pure : A → Exec S A
  pure a objects = (ok a, objects)

infixl 5 ◌>>=◌ ◌>>◌
abbrev pub ◌>>=◌ : {S A B : Type 0} → Exec S A → (A → Exec S B) → Exec S B
◌>>=◌ m f s = let (r, s') = m s in elim r [ ok a ↦ f a s' | err e ↦ (err e, s') ]

abbrev pub ◌>>◌ : {S A B : Type 0} → Exec S A → Exec S B → Exec S B
m >> k = m >>= λ _. k

abbrev pub modify : {S : Type 0} → (S → S) → Exec S (Unit {0})
modify f s = (ok tt, f s)

-- `if c: raise e`
abbrev pub raise_when : {S : Type 0} → Bool → Exception → Exec S (Unit {0})
raise_when c e s = (if c then err e else ok tt, s)
