-- ===== src/Prelude/Table.antt =====
-- A database table as the list of its rows: `SELECT`, `UPDATE` and `DELETE` by a condition.
use mathlib.Core.Path.{◌≡◌, refl}
use mathlib.Core.Bool.{Bool, true, false}
use mathlib.Core.Option.{Option, none, some}
use mathlib.Core.List.{List, [], ◌∷◌}
use native.Mathlib.Omega.{arith}
use ark_esp_backend.Prelude.Tests.{if◌then◌else◌}

module _ {A : Type 0} where
  -- the row that a query by a unique key finds (`Session.get`, `scalar_one_or_none`)
  abbrev pub find : (A → Bool) → List A → Option A
  find p [] = none
  find p (x ∷ xs) = if p x then some x else find p xs

  -- the rows that meet the condition
  abbrev pub select : (A → Bool) → List A → List A
  select p [] = []
  select p (x ∷ xs) = if p x then x ∷ select p xs else select p xs

  abbrev pub delete : (A → Bool) → List A → List A
  delete p [] = []
  delete p (x ∷ xs) = if p x then delete p xs else x ∷ delete p xs

  abbrev pub update : (A → Bool) → (A → A) → List A → List A
  update p f [] = []
  update p f (x ∷ xs) = (if p x then f x else x) ∷ update p f xs

  abbrev pub change : (A → Bool) → (A → A) → Option A → Option A
  change p f none = none
  change p f (some x) = some (if p x then f x else x)

  -- An update that leaves the condition of a query alone changes what the query finds, and no more.
  pub find-update :
      (q p : A → Bool) (f : A → A) (xs : List A)
      → ((x : A) → q (f x) ≡ q x)
      → find q (update p f xs) ≡ change p f (find q xs)
  find-update q p f [] h = refl
  find-update q p f (x ∷ xs) h = ground (arith, h x, find-update q p f xs h)

  pub find-delete_all :
      (q p : A → Bool) (xs : List A)
      → ((x : A) → q x ≡ true → p x ≡ true)
      → find q (delete p xs) ≡ none
  find-delete_all q p [] h = refl
  find-delete_all q p (x ∷ xs) h = ground (arith, h x, find-delete_all q p xs h)

  pub find-delete_other :
      (q p : A → Bool) (xs : List A)
      → ((x : A) → q x ≡ true → p x ≡ false)
      → find q (delete p xs) ≡ find q xs
  find-delete_other q p [] h = refl
  find-delete_other q p (x ∷ xs) h = ground (arith, h x, find-delete_other q p xs h)

  pub find-delete_absent :
      (q p : A → Bool) (xs : List A) → find q xs ≡ none → find q (delete p xs) ≡ none
  find-delete_absent q p [] e = refl
  find-delete_absent q p (x ∷ xs) e = ground (arith, find-delete_absent q p xs)

  -- no row that a query finds meets a condition that finds no row
  pub find_other :
      (q p : A → Bool) (xs : List A) (x : A) → find q xs ≡ none → find p xs ≡ some x → q x ≡ false
  find_other q p [] x h e = ground arith
  find_other q p (y ∷ ys) x h e = ground (arith, find_other q p ys x)

  -- A row that is found meets the condition.
  pub find_sound : (q : A → Bool) (xs : List A) (x : A) → find q xs ≡ some x → q x ≡ true
  find_sound q [] x h = ground arith
  find_sound q (y ∷ ys) x h = ground (arith, find_sound q ys x)

  -- ORDER BY, for a test `before x y` that x may stand before y
  abbrev pub insert_by : (A → A → Bool) → A → List A → List A
  insert_by before x [] = x ∷ []
  insert_by before x (y ∷ ys) = if before x y then x ∷ y ∷ ys else y ∷ insert_by before x ys

  abbrev pub order_by : (A → A → Bool) → List A → List A
  order_by before [] = []
  order_by before (x ∷ xs) = insert_by before x (order_by before xs)
