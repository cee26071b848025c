-- ===== src/Prelude/Results.antt =====
-- A call that may raise: its value or the exception, beside the state that it leaves.
use mathlib.Core.Path.{◌≡◌, refl, sym, subst}
use mathlib.Core.Logic.{◌≢◌}
use mathlib.Core.Bool.{Bool, true, false}
use mathlib.Core.Option.{Option, none, some}

pub data Result {ℓ κ} (E : Type ℓ) (A : Type κ) : Type (ℓ ⊔ κ) where
  ok : A → Result E A
  err : E → Result E A

-- `S` is what the program writes to. What was written before a raise stays written.
abbrev pub Action : Type 0 → Type 0 → Type 0 → Type 0
Action S E A = S → Result E A × S

module _ {S E A : Type 0} where
  abbrev pub pure : A → Action S E A
  pure a s = (ok a, s)

  abbrev pub raise : E → Action S E A
  raise e s = (err e, s)

  abbrev pub gets : (S → A) → Action S E A
  gets f s = (ok (f s), s)

  abbrev pub or_raise : Option A → E → Action S E A
  or_raise none e = raise e
  or_raise (some a) e = pure a

module _ {S E : Type 0} where
  abbrev pub modify : (S → S) → Action S E (Unit {0})
  modify f s = (ok tt, f s)

  abbrev pub raise_if : Bool → E → Action S E (Unit {0})
  raise_if true e s = (err e, s)
  raise_if false e s = (ok tt, s)

module _ {S E A B : Type 0} where
  infixl 5 ◌>>=◌ ◌>>◌
  abbrev continue : (A → Action S E B) → Result E A → S → Result E B × S
  continue f (ok a) s = f a s
  continue f (err e) s = (err e, s)

  abbrev pub ◌>>=◌ : Action S E A → (A → Action S E B) → Action S E B
  ◌>>=◌ m f s = let (r, s') = m s in continue f r s'

  abbrev pub ◌>>◌ : Action S E A → Action S E B → Action S E B
  m >> k = m >>= λ _. k

module _ {S E A B : Type 0} where
  -- what follows a call without touching the state
  continue-pure : (b : B) (r : Result E A) (s : S) → (continue (λ _. pure b) r s).1 ≡ s
  continue-pure b (ok a) s = refl
  continue-pure b (err e) s = refl

  pub after-pure :
      (P : S → Type 0) (m : Action S E A) (b : B) (s : S) → P (m s).1 → P ((m >> pure b) s).1
  after-pure P m b s h = subst P (sym (continue-pure b (m s).0 (m s).1)) h

pub err-ne-ok {ℓ κ} :
    {E : Type ℓ} {A : Type κ} (e : E) (a : A) → ◌≢◌ {A = Result E A} (err e) (ok a)
err-ne-ok e a h = cc

pub ok-injective {ℓ κ} :
    {E : Type ℓ} {A : Type κ} {a b : A} → ◌≡◌ {A = Result E A} (ok a) (ok b) → a ≡ b
ok-injective h = cc

-- What a call that returned got past.
module _ {S E A B : Type 0} (f : A → Action S E B) (e : E) (s : S) {b : B} where
  pub or_raise-ok :
      (o : Option A)
      → ((or_raise o e >>= f) s).0 ≡ ok b
      → (a : A) × (o ≡ some a) × ((f a s).0 ≡ ok b)
  or_raise-ok none h = absurd (err-ne-ok e b h)
  or_raise-ok (some a) h = (a, refl, h)

module _ {S E B : Type 0} (k : Action S E B) (e : E) (s : S) {b : B} where
  pub raise_if-ok : (c : Bool) → ((raise_if c e >> k) s).0 ≡ ok b → (c ≡ false) × ((k s).0 ≡ ok b)
  raise_if-ok true h = absurd (err-ne-ok e b h)
  raise_if-ok false h = (refl, h)
