-- ===== src/Prelude/Unique.antt =====
-- A table whose rows have different keys.
use Prim.Native.Nat.{ℕ}
use mathlib.Core.Path.{◌≡◌, refl}
use mathlib.Core.Logic.{inl, inr}
use mathlib.Core.Bool.{Bool, false}
use mathlib.Core.Option.{none, some}
use mathlib.Core.List.{List, [], ◌∷◌}
use native.Mathlib.Omega.{arith}
use ark_esp_backend.Prelude.Tests.{◌==◌, Bool-cases, ==_refl}
use ark_esp_backend.Prelude.Table.{find, update, delete, find-delete_absent, find_other}

module _ {A : Type 0} (key : A → ℕ) where
  abbrev pub has_key : ℕ → A → Bool
  has_key k x = key x == k

  abbrev pub HasUniqueKeys : List A → Type 0
  HasUniqueKeys [] = Unit
  HasUniqueKeys (x ∷ xs) = (find (has_key (key x)) xs ≡ none) × HasUniqueKeys xs

  find-update_absent :
      (k : ℕ) (p : A → Bool) (f : A → A) (xs : List A)
      → ((x : A) → key (f x) ≡ key x)
      → find (has_key k) xs ≡ none
      → find (has_key k) (update p f xs) ≡ none
  find-update_absent k p f [] h e = refl
  find-update_absent k p f (x ∷ xs) h e = ground (arith, h x, find-update_absent k p f xs h)

  pub HasUniqueKeys-update :
      (p : A → Bool) (f : A → A) (xs : List A)
      → ((x : A) → key (f x) ≡ key x)
      → HasUniqueKeys xs
      → HasUniqueKeys (update p f xs)
  HasUniqueKeys-update p f [] h u = tt
  HasUniqueKeys-update p f (x ∷ xs) h u = elim (Bool-cases (p x)) [
    | inl e ↦
        rw (e, h x) (find-update_absent (key x) p f xs h u.0, HasUniqueKeys-update p f xs h u.1)
    | inr e ↦ rw e (find-update_absent (key x) p f xs h u.0, HasUniqueKeys-update p f xs h u.1)
  ]

  pub HasUniqueKeys-delete :
      (p : A → Bool) (xs : List A) → HasUniqueKeys xs → HasUniqueKeys (delete p xs)
  HasUniqueKeys-delete p [] u = tt
  HasUniqueKeys-delete p (x ∷ xs) u = elim (Bool-cases (p x)) [
    | inl gone ↦ rw gone (HasUniqueKeys-delete p xs u.1)
    | inr kept ↦
        rw kept (find-delete_absent (has_key (key x)) p xs u.0, HasUniqueKeys-delete p xs u.1)
  ]

  -- The key of a row that any query finds leads to the same row.
  pub find_by_key :
      (p : A → Bool) (xs : List A) (x : A)
      → HasUniqueKeys xs
      → find p xs ≡ some x
      → find (has_key (key x)) xs ≡ some x
  find_by_key p [] x u e = ground arith
  find_by_key p (y ∷ ys) x u e = elim (Bool-cases (p y)) [
    | inl here ↦ ground (arith, ==_refl (key x))
    | inr there ↦
        let e' : find p ys ≡ some x = rw there at e in
        let apart : (key x == key y) ≡ false = find_other (has_key (key y)) p ys x u.0 e' in
        ground (arith, find_by_key p ys x u.1 e')
  ]
