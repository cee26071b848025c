-- ===== src/Prelude/Double.antt =====
-- What the code does with a `float`: a type `W` of doubles with these operations. `none` is the
-- exception that Python raises: OverflowError of `**`, ValueError and OverflowError of `math.floor`
-- and `round` at NaN and the infinities, ValueError of `float(s)`.
use mathlib.Core.Path.{◌≡◌}
use mathlib.Core.Logic.{◌⊎◌}
use mathlib.Core.Bool.{Bool, true}
use mathlib.Core.Option.{Option}
use Prim.Native.Nat.{ℕ}
use Prim.Native.String.{String}
use ark_esp_backend.Prelude.Int.{ℤ}

pub record Double (W : Type 0) : Type 0 where
  pub le : W → W → Bool
  pub sub : W → W → W
  pub add : W → W → W
  pub square : W → Option W
  pub infinity : W
  pub of_ℕ : ℕ → W
  pub floor_div : W → ℕ → Option ℤ
  pub round_div : W → ℕ → Option ℤ
  pub exceeds : W → ℕ → Bool
  pub parse : String → Option W
  pub show : W → String

module _ (W : Type 0) ⦃d : Double W⦄ where
  -- `w == w`: false of NaN alone
  abbrev pub IsNumber : W → Type 0
  IsNumber w = d.le w w ≡ true

  -- what IEEE 754 says of `<=` on the numbers
  pub record ComparesNumbers : Type 0 where
    pub chain : (a b c : W) → d.le a b ≡ true → d.le b c ≡ true → d.le a c ≡ true
    pub either : (a b : W) → IsNumber a → IsNumber b → (d.le a b ≡ true) ⊎ (d.le b a ≡ true)
