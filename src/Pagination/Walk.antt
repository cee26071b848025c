-- ===== src/Pagination/Walk.antt =====
-- Following the cursors from the first page to the last.
use Prim.Native.String.{◌++◌ as append}
use ark_esp_backend.Prelude.{
  ℕ, zero, suc, String, ◌≤◌, ◌<◌, ◌≡◌, refl, sym, ◌∙◌, ap, inl, inr, Bool, true, false, Option,
  none, some, List, [], ◌∷◌, ltb, arith, Bool-cases, ◌++◌, Result, ok, err, max, min, str_eq,
}
use mathlib.Core.Path.{subst}
use ark_esp_backend.Prelude.Table.{order_by, insert_by}
use ark_esp_backend.Pagination.{
  Codec, InvalidCursor, length, take, last, encode_cursor, decode_cursor, follows, from, list_page,
  cut, list_rows, max_limit, start_at,
}
use ark_esp_backend.Pagination.Bar.{split_bar}
use ark_esp_backend.Pagination.Order.{
  HasUniqueIds, IsSorted, IsSorted-order_by, after, after-order_by, after_row,
}

module _ {A : Type 0} where
  take_all : (n : ℕ) (xs : List A) → length xs ≤ n → take n xs ≡ xs
  take_all zero [] h = refl
  take_all zero (x ∷ xs) h = absurd (omega (arith, h))
  take_all (suc n) [] h = refl
  take_all (suc n) (x ∷ xs) h = rw (take_all n xs (omega (arith, h))) refl

  length-take : (n : ℕ) (xs : List A) → n ≤ length xs → length (take n xs) ≡ n
  length-take zero xs h = refl
  length-take (suc n) [] h = absurd (omega (arith, h))
  length-take (suc n) (x ∷ xs) h = rw (length-take n xs (omega (arith, h))) refl

  take-take : (n : ℕ) (xs : List A) → take n (take (suc n) xs) ≡ take n xs
  take-take zero xs = refl
  take-take (suc n) [] = refl
  take-take (suc n) (x ∷ xs) = rw (take-take n xs) refl

  -- The rows of a page, the last of them, and the rows behind it.
  pub record Split (n : ℕ) (xs : List A) : Type 0 where
    pub front : List A
    pub final : A
    pub rest : List A
    pub whole : xs ≡ front ++ (final ∷ rest)
    pub page : take n xs ≡ front ++ (final ∷ [])
    pub ends : last (take n xs) ≡ some final

  last_cons : (x y : A) (xs : List A) → last xs ≡ some y → last (x ∷ xs) ≡ some y
  last_cons x y [] h = ground arith
  last_cons x y (z ∷ zs) h = h

  split : (n : ℕ) (xs : List A) → 1 ≤ n → n ≤ length xs → Split n xs
  split zero xs pos h = absurd (omega (arith, pos))
  split (suc n) [] pos h = absurd (omega (arith, h))
  split (suc zero) (x ∷ xs) pos h = record {
    front = [];
    final = x;
    rest = xs;
    whole = refl;
    page = refl;
    ends = refl;
  }
  split (suc (suc n)) (x ∷ xs) pos h =
      let s = split (suc n) xs (omega arith) (omega (arith, h)) in
      record {
        front = x ∷ s.front;
        final = s.final;
        rest = s.rest;
        whole = ap (λ (l : List A). x ∷ l) s.whole;
        page = ap (λ (l : List A). x ∷ l) s.page;
        ends = last_cons x s.final (take (suc n) xs) s.ends;
      }

-- What is relied on of base64, the ISO format and UUIDs: what was written is read again, the text is
-- not empty, and the ISO format has no bar.
pub record IsCodec (c : Codec) : Type 0 where
  pub decodes : (s : String) → c.b64decode (c.b64encode s) ≡ some s
  pub filled :
      (t : ℕ) (rest : String)
      → str_eq (c.b64encode (append (c.isoformat t) (append "|" rest))) "" ≡ false
  pub splits :
      (t : ℕ) (rest : String)
      → split_bar (append (c.isoformat t) (append "|" rest)) ≡ some (c.isoformat t, rest)
  pub reads_time : (t : ℕ) → c.fromisoformat (c.isoformat t) ≡ some t
  pub reads_id : (i : ℕ) → c.uuid (c.show i) ≡ some i

start_at_cursor :
    (c : Codec)
    → IsCodec c
    → (t i : ℕ) → start_at c (some (encode_cursor c t i)) ≡ some (some (t, i))
unfolding encode_cursor decode_cursor
start_at_cursor c k t i =
    rw (k.filled t (c.show i), k.decodes, k.splits t (c.show i), k.reads_time t, k.reads_id i) refl

module _ {A : Type 0} (before : A → A → Bool) where
  length-insert_by : (x : A) (xs : List A) → length (insert_by before x xs) ≡ suc (length xs)
  length-insert_by x [] = refl
  length-insert_by x (y ∷ ys) = elim (Bool-cases (before x y)) [
    | inl first ↦ rw first refl
    | inr later ↦ rw (later, length-insert_by x ys) refl
  ]

  length-order_by : (xs : List A) → length (order_by before xs) ≡ length xs
  length-order_by [] = refl
  length-order_by (x ∷ xs) = length-insert_by x (order_by before xs) ∙ ap suc (length-order_by xs)

module _ {A : Type 0} (key : A → ℕ × ℕ) (c : Codec) (limit : ℕ) (rows : List A) where
  abbrev follow : (Option String → List A) → Result InvalidCursor (List A × Option String) → List A
  follow f (err e) = []
  follow f (ok (page, none)) = page
  follow f (ok (page, some cursor)) = page ++ f (some cursor)

  -- the rows of at most so many pages, from a cursor on
  abbrev pub walk : ℕ → Option String → List A
  walk zero cursor = []
  walk (suc n) cursor = follow (walk n) (list_rows key c cursor limit rows)

  abbrev page_size : ℕ
  page_size = max 1 (min limit max_limit)

  abbrev ordered : List A
  ordered = order_by (follows key) rows

  -- A page that is not the last.
  cut_more :
      (xs : List A) (s : Split page_size xs)
      → page_size < length xs
      → cut key c page_size (take (suc page_size) xs)
        ≡ (s.front ++ (s.final ∷ []), some (encode_cursor c (key s.final).0 (key s.final).1))
  unfolding cut
  cut_more xs s h =
      rw
        (
          length-take (suc page_size) xs (omega (arith, h)),
          ltb-suc page_size,
          take-take page_size xs,
          s.ends,
          s.page,
        )
        refl
    where
      ltb-suc : (n : ℕ) → ltb n (suc n) ≡ true
      ltb-suc n = ground arith

  cut_last :
      (xs : List A)
      → length xs ≤ page_size
      → cut key c page_size (take (suc page_size) xs) ≡ (xs, none)
  unfolding cut
  cut_last xs h =
      let short : ltb page_size (length xs) ≡ false = ground arith in
      rw (take_all (suc page_size) xs (omega (arith, h)), short) refl

  append_assoc : (xs ys zs : List A) → xs ++ (ys ++ zs) ≡ (xs ++ ys) ++ zs
  append_assoc [] ys zs = refl
  append_assoc (x ∷ xs) ys zs = ap (λ (l : List A). x ∷ l) (append_assoc xs ys zs)

  -- From a cursor whose rows are a tail of the ordered ones, the pages give that tail.
  walk_from :
      IsCodec c
      → IsSorted key ordered
      → (n : ℕ) (cursor : Option String) (start : Option (ℕ × ℕ)) (ys zs : List A)
      → start_at c cursor ≡ some start
      → order_by (follows key) (from key start rows) ≡ zs
      → ordered ≡ ys ++ zs
      → length zs < n
      → walk n cursor ≡ zs
  unfolding list_rows list_page
  walk_from k sorted zero cursor start ys zs at rest tail fuel = absurd (omega (arith, fuel))
  walk_from k sorted (suc n) cursor start ys zs at rest tail fuel =
      elim (Bool-cases (ltb page_size (length zs))) [
        | inr final ↦ rw (at, rest, cut_last zs (ground arith)) refl
        | inl more ↦
            let big : page_size < length zs = ground arith in
            let s = split page_size zs (omega arith) (omega (arith, big)) in
            let here : ordered ≡ (ys ++ s.front) ++ (s.final ∷ s.rest) =
              tail
              ∙ (ap (λ (l : List A). ys ++ l) s.whole
                  ∙ append_assoc ys s.front (s.final ∷ s.rest)) in
            let ih =
              walk_from k sorted n (some (encode_cursor c (key s.final).0 (key s.final).1))
                (some (key s.final)) ((ys ++ s.front) ++ (s.final ∷ [])) s.rest
                (start_at_cursor c k (key s.final).0 (key s.final).1)
                (after-order_by key (key s.final) rows ∙ behind s (ys ++ s.front) here)
                (here ∙ append_assoc (ys ++ s.front) (s.final ∷ []) s.rest) (shorter s fuel) in
            rw (at, rest, cut_more zs s big, ih)
              (sym (append_assoc s.front (s.final ∷ []) s.rest) ∙ sym s.whole)
      ]
    where
      behind :
          {zs : List A} (s : Split page_size zs) (ws : List A)
          → ordered ≡ ws ++ (s.final ∷ s.rest)
          → after key (key s.final) ordered ≡ s.rest
      behind s ws here =
          ap (after key (key s.final)) here
          ∙ after_row key ws s.final s.rest (subst (IsSorted key) here sorted)

      length-append : (xs : List A) (x : A) (ys : List A) → length ys < length (xs ++ (x ∷ ys))
      length-append [] x ys = omega arith
      length-append (w ∷ xs) x ys = omega (arith, length-append xs x ys)

      shorter : {zs : List A} (s : Split page_size zs) → length zs < suc n → length s.rest < n
      shorter {zs} s fuel =
          let same : length zs ≡ length (s.front ++ (s.final ∷ s.rest)) = ap length s.whole in
          omega (arith, fuel, same, length-append s.front s.final s.rest)

  -- Where ids differ and cursors can be read again, following `next_cursor` from the first page gives,
  -- whatever the limit, the whole listing: all rows, newest first, none twice and none left out. One
  -- page more than there are rows is enough.
  pub pages_list_every_row :
      IsCodec c
      → HasUniqueIds key rows
      → (n : ℕ) → length rows < n
      → walk n none ≡ order_by (follows key) rows
  pages_list_every_row k u n fuel =
      walk_from k (IsSorted-order_by key rows u) n none none [] ordered refl refl refl
        (omega (arith, fuel, length-order_by (follows key) rows))
