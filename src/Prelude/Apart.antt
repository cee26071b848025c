-- ===== src/Prelude/Apart.antt =====
-- A table no two rows of which are the same in the sense of a unique index, and DELETE by id.
use Prim.Native.Nat.{ℕ}
use mathlib.Core.Path.{◌≡◌, refl}
use mathlib.Core.Logic.{inl, inr}
use mathlib.Core.Bool.{Bool, true, false, ◌&&◌}
use mathlib.Core.Option.{none, some}
use mathlib.Core.List.{List, [], ◌∷◌}
use native.Mathlib.Omega.{arith}
use ark_esp_backend.Prelude.Tests.{Bool-cases, Option-cases, ==_iff, and_true}
use ark_esp_backend.Prelude.Table.{find, update, delete, find_sound, find-delete_absent}
use ark_esp_backend.Prelude.Upsert.{upsert}
use ark_esp_backend.Prelude.Unique.{has_key, HasUniqueKeys, find_by_key}

module _ {A : Type 0} (same : A → A → Bool) where
  abbrev pub IsApart : List A → Type 0
  IsApart [] = Unit
  IsApart (x ∷ xs) = (find (same x) xs ≡ none) × IsApart xs

  module _ (p : A → Bool) (f : A → A) (keeps : (x y : A) → same x (f y) ≡ same x y)
      (keeps' : (x y : A) → same (f x) y ≡ same x y) where
    find-update_apart :
        (x : A) (xs : List A) → find (same x) xs ≡ none → find (same x) (update p f xs) ≡ none
    find-update_apart x [] e = refl
    find-update_apart x (y ∷ ys) e = ground (arith, keeps x y, find-update_apart x ys)

    changed_apart : (x : A) (xs : List A) → find (same x) xs ≡ none → find (same (f x)) xs ≡ none
    changed_apart x [] e = refl
    changed_apart x (y ∷ ys) e = ground (arith, keeps' x y, changed_apart x ys)

    pub IsApart-update : (xs : List A) → IsApart xs → IsApart (update p f xs)
    IsApart-update [] u = tt
    IsApart-update (x ∷ xs) u = elim (Bool-cases (p x)) [
      | inl e ↦
          rw e (changed_apart x (update p f xs) (find-update_apart x xs u.0), IsApart-update xs u.1)
      | inr e ↦ rw e (find-update_apart x xs u.0, IsApart-update xs u.1)
    ]

  pub IsApart-delete : (p : A → Bool) (xs : List A) → IsApart xs → IsApart (delete p xs)
  IsApart-delete p [] u = tt
  IsApart-delete p (x ∷ xs) u = elim (Bool-cases (p x)) [
    | inl gone ↦ rw gone (IsApart-delete p xs u.1)
    | inr kept ↦ rw kept (find-delete_absent (same x) p xs u.0, IsApart-delete p xs u.1)
  ]

  module _ (q : A → Bool) (agrees : (x y : A) → q x ≡ true → q y ≡ true → same x y ≡ true) where
    none_more : (x : A) (xs : List A) → q x ≡ true → find (same x) xs ≡ none → find q xs ≡ none
    none_more x [] h e = refl
    none_more x (y ∷ ys) h e = ground (arith, agrees x y, none_more x ys)

    -- The one row that meets the condition is deleted: none is left.
    pub find-delete_found :
        (p : A → Bool) (xs : List A) (r : A)
        → IsApart xs
        → find q xs ≡ some r
        → p r ≡ true
        → find q (delete p xs) ≡ none
    find-delete_found p [] r u e h = refl
    find-delete_found p (y ∷ ys) r u e h = elim (Bool-cases (q y)) [
      | inl here ↦
          let e' : some y ≡ some r = rw here at e in
          let is_r : y ≡ r = cc in
          let gone : p y ≡ true = rw is_r h in
          rw gone (find-delete_absent q p ys (none_more y ys here u.0))
      | inr there ↦
          let e' : find q ys ≡ some r = rw there at e in
          ground (arith, there, find-delete_found p ys r u.1 e' h)
    ]

module _ {A : Type 0} where
  find-delete_apart :
      (q p : A → Bool) (xs : List A)
      → find (λ x. p x && q x) xs ≡ none
      → find q (delete p xs) ≡ find q xs
  find-delete_apart q p [] e = refl
  find-delete_apart q p (y ∷ ys) e = ground (arith, find-delete_apart q p ys)

  -- DELETE of a row by its id leaves what a condition finds that this row does not meet.
  pub find-delete_row :
      (key : A → ℕ) (p q : A → Bool) (xs : List A) (r : A)
      → HasUniqueKeys key xs
      → find p xs ≡ some r
      → q r ≡ false
      → find q (delete (has_key key (key r)) xs) ≡ find q xs
  find-delete_row key p q xs r u found miss =
      find-delete_apart q (has_key key (key r)) xs
        (elim (Option-cases (find (λ x. has_key key (key r) x && q x) xs)) [
          | inl absent ↦ absent
          | inr (x, e) ↦
              let own = find_by_key key p xs r u found in
              let (id, hit) =
                and_true (has_key key (key r) x) (q x)
                  (find_sound (λ x. has_key key (key r) x && q x) xs x e) in
              let own' = find_by_key key (λ x. has_key key (key r) x && q x) xs x u e in
              let own'' : find (has_key key (key r)) xs ≡ some x =
                rw (← (==_iff (key x) (key r)).0 id) own' in
              let is_r : x ≡ r = cc in
              let hit' : q r ≡ true = rw (← is_r) hit in absurd (ground arith)
        ])

module _ {A : Type 0} (id : A → ℕ) (same : A → A → Bool) (q : A → Bool) (f : A → A)
    (fresh : A) where
  -- An upsert by the columns of the unique index keeps it.
  pub upsert-IsApart :
      (rows after : List A)
      → ((x y : A) → same x (f y) ≡ same x y)
      → ((x y : A) → same (f x) y ≡ same x y)
      → same (f fresh) ≡ q
      → IsApart same rows
      → upsert id q f fresh rows ≡ some after
      → IsApart same after
  unfolding upsert
  upsert-IsApart rows after keeps keeps' own u done = elim (Option-cases (find q rows)) [
    | inr (r, found) ↦
        let e : some (update (has_key id (id r)) f rows) ≡ some after = rw found at done in
        let e' : update (has_key id (id r)) f rows ≡ after = cc in
        rw (← e') (IsApart-update same (has_key id (id r)) f keeps keeps' rows u)
    | inl absent ↦ elim (Option-cases (find (has_key id (id fresh)) rows)) [
      | inr (x, taken) ↦ absurd (ground (arith, absent, taken, done))
      | inl free ↦
          let e : some (f fresh ∷ rows) ≡ some after = rw (absent, free) at done in
          let e' : f fresh ∷ rows ≡ after = cc in rw (← e') (rw own absent, u)
    ]
  ]
