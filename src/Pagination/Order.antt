-- ===== src/Pagination/Order.antt =====
-- The order of the rows, newest first, and the rows after a cursor in it.
use ark_esp_backend.Prelude.{
  ℕ, ◌≡◌, ◌≢◌, refl, sym, inl, inr, Bool, true, false, List, [], ◌∷◌, arith, Bool-cases, ◌++◌,
}
use ark_esp_backend.Prelude.Table.{select, order_by, insert_by}
use ark_esp_backend.Pagination.{is_past_key}

past_trans :
    (a b c : ℕ × ℕ) → is_past_key a b ≡ true → is_past_key b c ≡ true → is_past_key a c ≡ true
past_trans (s, i) (t, j) (u, k) h h' = ground arith

past_total : (a b : ℕ × ℕ) → a.1 ≢ b.1 → is_past_key a b ≡ false → is_past_key b a ≡ true
past_total (s, i) (t, j) apart h = ground arith

past_irreflexive : (a : ℕ × ℕ) → is_past_key a a ≡ false
past_irreflexive (s, i) = ground arith

past_asym : (a b : ℕ × ℕ) → is_past_key a b ≡ true → is_past_key b a ≡ false
past_asym (s, i) (t, j) h = ground arith

module _ {A : Type 0} (key : A → ℕ × ℕ) where
  abbrev follows : A → A → Bool
  follows x y = is_past_key (key x) (key y)

  -- every row of the list comes after the key
  abbrev pub AllPast : ℕ × ℕ → List A → Type 0
  AllPast k [] = Unit
  AllPast k (x ∷ xs) = (is_past_key k (key x) ≡ true) × AllPast k xs

  abbrev pub IsSorted : List A → Type 0
  IsSorted [] = Unit
  IsSorted (x ∷ xs) = AllPast (key x) xs × IsSorted xs

  abbrev pub IsFresh : A → List A → Type 0
  IsFresh x [] = Unit
  IsFresh x (y ∷ ys) = ((key x).1 ≢ (key y).1) × IsFresh x ys

  -- ids differ
  abbrev pub HasUniqueIds : List A → Type 0
  HasUniqueIds [] = Unit
  HasUniqueIds (x ∷ xs) = IsFresh x xs × HasUniqueIds xs

  AllPast-trans : (j k : ℕ × ℕ) (xs : List A) → is_past_key j k ≡ true → AllPast k xs → AllPast j xs
  AllPast-trans j k [] h all = tt
  AllPast-trans j k (x ∷ xs) h all = (past_trans j k (key x) h all.0, AllPast-trans j k xs h all.1)

  AllPast-insert :
      (k : ℕ × ℕ) (x : A) (xs : List A)
      → is_past_key k (key x) ≡ true
      → AllPast k xs
      → AllPast k (insert_by follows x xs)
  AllPast-insert k x [] h all = (h, tt)
  AllPast-insert k x (y ∷ ys) h all = elim (Bool-cases (follows x y)) [
    | inl first ↦ rw first (h, all)
    | inr later ↦ rw later (all.0, AllPast-insert k x ys h all.1)
  ]

  IsSorted-insert :
      (x : A) (xs : List A) → IsFresh x xs → IsSorted xs → IsSorted (insert_by follows x xs)
  IsSorted-insert x [] fresh s = (tt, tt)
  IsSorted-insert x (y ∷ ys) fresh s = elim (Bool-cases (follows x y)) [
    | inl first ↦ rw first ((first, AllPast-trans (key x) (key y) ys first s.0), s)
    | inr later ↦ rw later (
      AllPast-insert (key y) x ys (past_total (key x) (key y) fresh.0 later) s.0,
      IsSorted-insert x ys fresh.1 s.1,
    )
  ]

  IsFresh-insert :
      (z x : A) (xs : List A)
      → (key z).1 ≢ (key x).1
      → IsFresh z xs
      → IsFresh z (insert_by follows x xs)
  IsFresh-insert z x [] h fresh = (h, tt)
  IsFresh-insert z x (y ∷ ys) h fresh = elim (Bool-cases (follows x y)) [
    | inl first ↦ rw first (h, fresh)
    | inr later ↦ rw later (fresh.0, IsFresh-insert z x ys h fresh.1)
  ]

  IsFresh-order_by : (z : A) (xs : List A) → IsFresh z xs → IsFresh z (order_by follows xs)
  IsFresh-order_by z [] fresh = tt
  IsFresh-order_by z (x ∷ xs) fresh =
      IsFresh-insert z x (order_by follows xs) fresh.0 (IsFresh-order_by z xs fresh.1)

  pub IsSorted-order_by : (xs : List A) → HasUniqueIds xs → IsSorted (order_by follows xs)
  IsSorted-order_by [] u = tt
  IsSorted-order_by (x ∷ xs) u =
      IsSorted-insert x (order_by follows xs) (IsFresh-order_by x xs u.0) (IsSorted-order_by xs u.1)

  abbrev pub after : ℕ × ℕ → List A → List A
  after k xs = select (λ r. is_past_key k (key r)) xs

  after_all : (k : ℕ × ℕ) (xs : List A) → AllPast k xs → after k xs ≡ xs
  after_all k [] all = refl
  after_all k (x ∷ xs) all = rw (all.0, after_all k xs all.1) refl

  insert_first : (x : A) (xs : List A) → AllPast (key x) xs → insert_by follows x xs ≡ x ∷ xs
  insert_first x [] all = refl
  insert_first x (y ∷ ys) all = rw all.0 refl

  -- Selecting the rows after a key commutes with an insertion in order.
  after-insert_in :
      (k : ℕ × ℕ) (x : A) (xs : List A)
      → is_past_key k (key x) ≡ true
      → after k (insert_by follows x xs) ≡ insert_by follows x (after k xs)
  after-insert_in k x [] h = rw h refl
  after-insert_in k x (y ∷ ys) h = elim (Bool-cases (follows x y)) [
    | inl first ↦ rw (first, h, past_trans k (key x) (key y) h first, first) refl
    | inr later ↦ elim (Bool-cases (is_past_key k (key y))) [
      | inl kept ↦ rw (later, kept, later, after-insert_in k x ys h) refl
      | inr gone ↦ rw (later, gone, after-insert_in k x ys h) refl
    ]
  ]

  after-insert_out :
      (k : ℕ × ℕ) (x : A) (xs : List A)
      → is_past_key k (key x) ≡ false
      → after k (insert_by follows x xs) ≡ after k xs
  after-insert_out k x [] h = rw h refl
  after-insert_out k x (y ∷ ys) h = elim (Bool-cases (follows x y)) [
    | inl first ↦ rw (first, h) refl
    | inr later ↦ elim (Bool-cases (is_past_key k (key y))) [
      | inl kept ↦ rw (later, kept, after-insert_out k x ys h) refl
      | inr gone ↦ rw (later, gone, after-insert_out k x ys h) refl
    ]
  ]

  -- The rows after a key, put in order, are the ordered rows after the key.
  pub after-order_by :
      (k : ℕ × ℕ) (xs : List A) → order_by follows (after k xs) ≡ after k (order_by follows xs)
  after-order_by k [] = refl
  after-order_by k (x ∷ xs) = elim (Bool-cases (is_past_key k (key x))) [
    | inl kept ↦
        rw (kept, after-order_by k xs) (sym (after-insert_in k x (order_by follows xs) kept))
    | inr gone ↦
        rw (gone, after-order_by k xs) (sym (after-insert_out k x (order_by follows xs) gone))
  ]

  none_before :
      (k : ℕ × ℕ) (x : A) (xs : List A)
      → is_past_key k (key x) ≡ false
      → after k (x ∷ xs) ≡ after k xs
  none_before k x xs h = rw h refl

  -- In ordered rows, those after a row are the ones that stand behind it.
  pub after_row :
      (ys : List A) (x : A) (zs : List A)
      → IsSorted (ys ++ (x ∷ zs))
      → after (key x) (ys ++ (x ∷ zs)) ≡ zs
  after_row [] x zs s = rw (past_irreflexive (key x)) (after_all (key x) zs s.0)
  after_row (y ∷ ys) x zs s =
      rw (past_asym (key y) (key x) (reach y ys s.0)) (after_row ys x zs s.1)
    where
      reach :
          (y : A) (ws : List A)
          → AllPast (key y) (ws ++ (x ∷ zs))
          → is_past_key (key y) (key x) ≡ true
      reach y [] all = all.0
      reach y (w ∷ ws) all = reach y ws all.1
