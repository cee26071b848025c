-- ===== src/Pagination/Tests/Strokes.antt =====
-- A number as so many strokes: the test data of the codec.
use Prim.Native.Char.{Char}
use Prim.Native.String.{String, [], ◌∷◌, ◌++◌, len}
use Prim.Native.String.append
use Prim.Native.String.len
use Prim.Native.String.compare
use ark_esp_backend.Prelude.{ℕ, zero, suc, ◌≡◌, ◌∙◌, ap, refl, some, arith, false, str_eq}
use ark_esp_backend.Pagination.Bar.{split_bar}

unfoldable pub strokes : ℕ → String
strokes zero = []
strokes (suc n) = "i" ∷ strokes n

pub len-strokes : (n : ℕ) → len (strokes n) ≡ n
unfolding strokes
len-strokes zero = refl
len-strokes (suc n) = rw (len.cons "i" (strokes n), len-strokes n) (omega arith)

append_bar : (rest : String) → "|" ++ rest ≡ "|" ∷ rest
append_bar rest = append.cons "|" [] rest ∙ ap (λ (s : String). "|" ∷ s) (append.nil rest)

pub split_bar-strokes :
    (t : ℕ) (rest : String) → split_bar (strokes t ++ ("|" ++ rest)) ≡ some (strokes t, rest)
unfolding strokes
split_bar-strokes zero rest = rw (append.nil ("|" ++ rest), append_bar rest) refl
split_bar-strokes (suc t) rest =
    rw (append.cons "i" (strokes t) ("|" ++ rest), split_bar-strokes t rest) refl

nonempty : (c : Char) (s : String) → str_eq (c ∷ s) "" ≡ false
nonempty c s = rw (compare.cons-nil c s) refl

pub strokes_filled : (t : ℕ) (rest : String) → str_eq (strokes t ++ ("|" ++ rest)) "" ≡ false
unfolding strokes
strokes_filled zero rest = rw (append.nil ("|" ++ rest), append_bar rest) (nonempty "|" rest)
strokes_filled (suc t) rest =
    rw (append.cons "i" (strokes t) ("|" ++ rest)) (nonempty "i" (strokes t ++ ("|" ++ rest)))
